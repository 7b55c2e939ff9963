-- ===== src/Tests/Router.antt =====
-- Requests with a wrong secret and with a payload that meets a finalised payment.
use order_sync.Base.{
  String, some, List, [], ◌≡◌, refl, ◌↔◌, arith, is_empty, text_eq, trim_space, to_upper,
}
use order_sync.Config.{Config}
use order_sync.Contracts.{Error, Result, ValidationIssue}
use order_sync.Payment.Webhook as PaymentWebhook
use order_sync.Postgres.Queries.Payments.{status_allowed}
use order_sync.Transaction.{payment_process}
use order_sync.App.Router.{
  HttpRequest, Decoded, Extra, Decoding, decode, process_webhook, webhook_auth, payment_status,
  payment_webhook,
}
use order_sync.App.Replies.{IsConflict, process_webhook_codes}
use order_sync.Tests.Data.{cfg, env_at, env_failing, empty_db, paid_webhook}

abbrev secured : Config
secured = record cfg { webhook_secret = "s3cret" }

abbrev request_with : {T : Type 0} → String → T → HttpRequest T
request_with secret payload = record {
  secret = secret;
  media_type = some "application/json";
  first = Decoded.value payload;
  extra = Extra.end_of_input;
}

unauthorized :
    (payment_webhook secured (request_with "guess" paid_webhook) (env_at 1000) empty_db).0.code
    ≡ 401
unfolding payment_webhook webhook_auth is_empty text_eq
unauthorized = refl

paid_decodes : decode (request_with "" paid_webhook) ≡ Decoding.complete paid_webhook
unfolding decode text_eq
paid_decodes = refl

abbrev normal : PaymentWebhook.Webhook → PaymentWebhook.Webhook
normal = PaymentWebhook.normalize (λ c. c)

abbrev checks : PaymentWebhook.Webhook → List ValidationIssue
checks = PaymentWebhook.validate (λ s. some 77)

paid_valid : checks (normal paid_webhook) ≡ []
unfolding PaymentWebhook.validate PaymentWebhook.normalize PaymentWebhook.normalize_status is_empty
    PaymentWebhook.status_of_text PaymentWebhook.text_of_status trim_space to_upper text_eq
    status_allowed
paid_valid = refl

process_webhook_codes_example :
    let code =
      (process_webhook
        (payment_process cfg)
        normal
        checks
        payment_status
        (request_with "" paid_webhook)
        (env_failing 3)
        empty_db).0.code in
    ((code ≡ 409) ↔ (
      (e : Error) × ((payment_process cfg (normal paid_webhook) (env_failing 3) empty_db).0
        ≡ Result.err e)
      × IsConflict e))
    × ((code ≡ 500) ↔ (
        (e : Error) × ((payment_process cfg (normal paid_webhook) (env_failing 3) empty_db).0
          ≡ Result.err e)
        × (¬ IsConflict e)))
process_webhook_codes_example =
    process_webhook_codes (payment_process cfg) normal checks payment_status (λ r. ground arith)
      (env_failing 3) empty_db (request_with "" paid_webhook) paid_webhook paid_decodes paid_valid
