-- ===== src/Transaction/Padding.antt =====
-- White space around the texts of a payment webhook, which NormalizePaymentWebhook trims.
use order_sync.Base.{String, Option, ◌≡◌, ap}
use order_sync.Config.{Config}
use order_sync.Contracts.{Time}
use order_sync.Postgres.Schema.{Env, Db}
use order_sync.Payment.Webhook.{Webhook, PadsWebhook, normalize, validate, normalize-PadsWebhook}
use order_sync.Payment.Service.{process_payment}
use order_sync.Transaction.{run, payment_process}

-- For two payment webhooks of which the second has white space around the four texts of the first: the
-- issues found in their normal forms are the same, and so are the answer of `Process` and the database after it.
pub padding_ignored :
    (cfg : Config) (env : Env) (s : Db) (p padded : Webhook)
    → PadsWebhook p padded
    → ((parse : String → Option Time)
        → validate parse (normalize env.upper padded) ≡ validate parse (normalize env.upper p))
      × (payment_process cfg padded env s ≡ payment_process cfg p env s)
unfolding payment_process
padding_ignored cfg env s p padded h =
    let same = normalize-PadsWebhook env.upper p padded h in
    (λ parse. ap (validate parse) same, ap (λ w. run (process_payment cfg w) env s) same)
