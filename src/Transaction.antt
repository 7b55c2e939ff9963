-- ===== src/Transaction.antt =====
-- internal/db/transaction.go, and the method `Process` of the two webhook services.
pub mod Evolution
pub mod Guarantees
pub mod Replay
pub mod Redelivery
pub mod Padding
use order_sync.Base.{suc, String, if◌then◌else◌}
use order_sync.Config.{Config}
use order_sync.Contracts.{Error, Result, WebhookResult}
use order_sync.Postgres.Schema.{Db}
use order_sync.Postgres.Tx.{Tx}
use order_sync.Payment.Webhook as PaymentWebhook
use order_sync.Payment.Service.{process_payment}
use order_sync.Shop.Webhook as ShopWebhook
use order_sync.Shop.Service.{process_shop}

-- The deferred `tx.Rollback`: the tables are what they were; the sequences stay.
abbrev pub rolled_back : Db → Db → Db
rolled_back before after = record after { tables = before.tables }

abbrev pub failed : {A : Type 0} → String → Error → Db → Result A × Db
failed format e s = (Result.err (Error.wrap format e), s)

abbrev pub finish : {A : Type 0} → Db → Result A → Tx A
finish before (Result.err e) env s = failed "run transaction work" e (rolled_back before s)
finish before (Result.ok a) env s =
    let sent = record s { calls = suc s.calls } in
    if env.fault s.calls
    then failed "commit transaction" Error.database (rolled_back before sent)
    else (Result.ok a, sent)

-- PostgresTransactionRunner.Run. BEGIN and COMMIT are statements, which may fail too. A COMMIT that gives an
-- error is taken to have been rolled back; a commit whose reply is lost is left out.
unfoldable pub run : {A : Type 0} → Tx A → Tx A
run work env s =
    let begun = record s { calls = suc s.calls } in
    let (r, s') = work env begun in
    if env.fault s.calls
    then failed "begin transaction" Error.database begun
    else finish begun r env s'

-- payment.Service.Process
unfoldable pub payment_process : Config → PaymentWebhook.Webhook → Tx WebhookResult
unfolding run
payment_process cfg payload env =
    run (process_payment cfg (PaymentWebhook.normalize env.upper payload)) env

-- shop.Service.Process
unfoldable pub shop_process : Config → ShopWebhook.Webhook → Tx WebhookResult
unfolding run
shop_process cfg payload = run (process_shop cfg (ShopWebhook.normalize payload))
