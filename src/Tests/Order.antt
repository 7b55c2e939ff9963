-- ===== src/Tests/Order.antt =====
-- A shop order and its payment in either order, and a webhook that is delivered again.
use order_sync.Base.{
  false, true, List, [], ◌∷◌, ◌≡◌, refl, arith, find_row, has_row, text_eq, trim_space, to_upper,
}
use order_sync.Contracts.{
  Result, OrderState, PaymentStatus, SyncStatus, WebhookResult, stored_price,
}
use order_sync.Payment.Service.{message_awaiting_shop_order}
use order_sync.Payment.Service as Payment
use order_sync.Payment.Webhook as PaymentWebhook
use order_sync.Postgres.Queries.Events.{insert_event}
use order_sync.Postgres.Queries.Orders.{find_order_id}
use order_sync.Postgres.Queries.Payments.{find_payment, upsert_payment, status_allowed, order_fits}
use order_sync.Postgres.Repositories.Events as EventRepository
use order_sync.Postgres.Repositories.Orders as OrderRepository
use order_sync.Postgres.Repositories.Payments as PaymentRepository
use order_sync.Postgres.Schema.{Env}
use order_sync.Postgres.Tx.{◌>>=◌, pure, wrapping, statement, reads, writes}
use order_sync.Reconcile.{sent, Fits, IsFresh}
use order_sync.Reconcile.Order.{but_events, either_order}
use order_sync.Reconcile.Steps.{reconciled}
use order_sync.Shop.Webhook as ShopWebhook
use order_sync.Tests.Data.{
  cfg, env_at, env_failing, empty_db, shop_webhook, paid_webhook, cancel_webhook,
}
use order_sync.Transaction.{payment_process, run}
use order_sync.Transaction.Guarantees.{Request, serve}
use order_sync.Transaction.Redelivery.{process, redelivery_changes_nothing}

abbrev normal_order : ShopWebhook.Webhook
normal_order = record shop_webhook { order_id = "A-1" }

abbrev shop : Request
shop = Request.shop shop_webhook

abbrev payment : Request
payment = Request.payment paid_webhook

empty_db-IsFresh : IsFresh empty_db
unfolding find_row
empty_db-IsFresh = record {
  positive = ground arith;
  orders = refl;
  items = refl;
  payments = refl;
  jobs = refl;
}

normal_order-Fits : Fits normal_order.items
unfolding stored_price
normal_order-Fits = (refl, (_, refl), tt)

either_order_example :
    (but_events
        (serve cfg
          ((sent (env_at 0) 1000, shop) ∷ (sent (env_at 0) 2000, payment) ∷ [])
          empty_db).tables
      ≡ reconciled cfg normal_order 77 2000 empty_db [])
    × (but_events
          (serve cfg
            ((sent (env_at 0) 1000, payment) ∷ (sent (env_at 0) 2000, shop) ∷ [])
            empty_db).tables
        ≡ reconciled cfg normal_order 77 2000 empty_db [])
unfolding ShopWebhook.normalize PaymentWebhook.normalize find_row trim_space
    PaymentWebhook.normalize_status PaymentWebhook.status_of_text text_eq to_upper
    PaymentWebhook.text_of_status
either_order_example =
    either_order cfg shop_webhook paid_webhook normal_order "pay-1" "2026-01-02T03:04:05Z"
      (env_at 0) 1000 2000 77 empty_db refl refl refl empty_db-IsFresh normal_order-Fits refl refl
      refl refl

abbrev first_answer : WebhookResult
first_answer = record {
  duplicate = false;
  message = message_awaiting_shop_order;
  event_id = "pay-1";
  order_id = "A-1";
  payment_status = PaymentStatus.completed;
  order_status = OrderState.other "";
  sync_status = SyncStatus.other "";
}

payment-first_answer : (process cfg payment (env_at 1000) empty_db).0 ≡ Result.ok first_answer
unfolding payment_process run Payment.process_payment Payment.apply_event Payment.find_order_id
    Payment.store_payment PaymentWebhook.normalize EventRepository.record_event
    EventRepository.mark_processed OrderRepository.find_id PaymentRepository.find
    PaymentRepository.upsert insert_event find_order_id find_payment upsert_payment status_allowed
    order_fits find_row has_row ◌>>=◌ pure wrapping statement reads writes
    PaymentWebhook.normalize_status PaymentWebhook.status_of_text text_eq to_upper trim_space
    PaymentWebhook.text_of_status
payment-first_answer = refl

abbrev later : List (Env × Request)
later = (env_at 2000, shop) ∷ (env_failing 30, Request.payment cancel_webhook) ∷ []

redelivery_changes_nothing_example :
    let u = serve cfg later (process cfg payment (env_at 1000) empty_db).1 in
    ((process cfg payment (env_at 5000) u).1.tables ≡ u.tables)
    × ((again : WebhookResult)
        → (process cfg payment (env_at 5000) u).0 ≡ Result.ok again
        → again.duplicate ≡ true)
redelivery_changes_nothing_example =
    redelivery_changes_nothing cfg payment (env_at 1000) empty_db first_answer payment-first_answer
      later (env_at 5000)
