-- ===== src/Tests/Webhooks.antt =====
-- Webhooks in both orders, replays and a cancellation.
use order_sync.Base.{
  String, true, none, some, List, [], ◌∷◌, ◌≡◌, refl, ◌⊎◌, ◌↔◌, find_row, text_eq, is_blank,
  is_space, Option,
}
use mathlib.Core.List.{Perm}
use order_sync.Contracts.{Time, EventType, PaymentStatus, SyncStatus, StoredOrder}
use order_sync.Postgres.Schema.{Payload, OrderRow, PaymentRow, JobRow, EventRow, Db, Env}
use order_sync.Postgres.Queries.Orders.{of_order, is_cancellable, find_order}
use order_sync.Postgres.Queries.Payments.{find_payment}
use order_sync.Postgres.Queries.Events.{same_type, find_event_payload}
use order_sync.Payment.Webhook as PaymentWebhook
use order_sync.Payment.Webhook.{PadsWebhook}
use order_sync.Transaction.Padding.{padding_ignored}
use order_sync.Payment.Service.{is_terminal}
use order_sync.Shop.Service.{same_order_payload}
use order_sync.Shop.SameOrder.{same_order_payload_iff}
use order_sync.Transaction.{payment_process}
use order_sync.Transaction.Guarantees.{
  Request, serve, terminal_payment_is_final, jobs_only_cancelled, shop_data_immutable,
}
use order_sync.Tests.Worker.{paid_order}
use order_sync.Tests.Data.{
  cfg, env_at, env_failing, empty_tables, empty_db, lock_item, shop_webhook, paid_webhook,
  cancel_webhook,
}

-- A payment that came first, and the webhooks after it: its order, and a late cancellation.
abbrev paid_row : PaymentRow
paid_row = record {
  id = 4;
  reference_order_id = "A-1";
  order_id = none;
  status = PaymentStatus.completed;
  paid_at = some 5;
}

abbrev processing_job : JobRow
processing_job = record {
  id = 1;
  order_id = 1;
  status = SyncStatus.processing;
  due_at = 900;
  attempts = 1;
  locked_at = some 950;
  waiting_since = none;
  last_error = none;
  sap_internal_id = none;
  synced_at = none;
}

abbrev payment_db : Db
payment_db = record empty_db {
  tables = record empty_tables { payments = paid_row ∷ []; jobs = processing_job ∷ [] };
}

abbrev history : List (Env × Request)
history =
    (env_at 1000, Request.shop shop_webhook)
    ∷ (env_at 2000, Request.payment cancel_webhook)
    ∷ (env_failing 40, Request.payment paid_webhook)
    ∷ []

terminal_payment_is_final_example :
    (p' : PaymentRow) × (find_payment "A-1" (serve cfg history payment_db).tables ≡ some p')
    × (p'.status ≡ PaymentStatus.completed)
    × (p'.paid_at ≡ some 5)
unfolding find_payment find_row text_eq is_terminal
terminal_payment_is_final_example =
    terminal_payment_is_final cfg history payment_db "A-1" paid_row refl refl

jobs_only_cancelled_example :
    (j' : JobRow) × (find_row (of_order 1) (serve cfg history payment_db).tables.jobs ≡ some j')
    × ((j' ≡ processing_job)
        ⊎ ((is_cancellable SyncStatus.processing ≡ true) × (j'.status ≡ SyncStatus.cancelled)))
unfolding find_row
jobs_only_cancelled_example = jobs_only_cancelled cfg history payment_db 1 processing_job refl

-- The payment's order is stored, and the shop's webhook of it is recorded.
abbrev recorded_event : EventRow
recorded_event = record {
  event_id = "shop-0";
  event_type = EventType.shop;
  payload = Payload.shop shop_webhook;
  processed_at = some 700;
}

abbrev shop_db : Db
shop_db = record payment_db {
  tables = record (payment_db.tables) { orders = paid_order ∷ []; events = recorded_event ∷ [] };
}

shop_data_immutable_example :
    ((r' : OrderRow) × (find_order "A-1" (serve cfg history shop_db).tables ≡ some r')
      × (r'.id ≡ 1)
      × (r'.customer_email ≡ "a@b.example"))
    × (find_event_payload EventType.shop "shop-0" (serve cfg history shop_db).tables
        ≡ some (Payload.shop shop_webhook))
unfolding find_order find_row text_eq same_type
shop_data_immutable_example =
    let kept = shop_data_immutable cfg history shop_db in
    (kept.0 "A-1" paid_order refl, kept.1 EventType.shop "shop-0" recorded_event refl)

abbrev stored : StoredOrder
stored = record { id = 1; customer_email = "a@b.example"; items = lock_item ∷ [] }

same_order_payload_iff_example :
    (same_order_payload stored shop_webhook ≡ true)
    ↔ ((stored.customer_email ≡ shop_webhook.customer_email) × Perm stored.items shop_webhook.items)
same_order_payload_iff_example = same_order_payload_iff stored shop_webhook

abbrev spaced_webhook : PaymentWebhook.Webhook
spaced_webhook = record {
  event_id = " pay-1";
  reference_order_id = "A-1 ";
  payment_status = PaymentStatus.other " COMPLETED ";
  timestamp = "2026-01-02T03:04:05Z ";
}

spaced-PadsWebhook : PadsWebhook paid_webhook spaced_webhook
unfolding is_blank is_space PaymentWebhook.text_of_status
spaced-PadsWebhook = record {
  event_ids = (" ", "", refl, refl, refl);
  order_ids = ("", " ", refl, refl, refl);
  statuses = (" ", " ", refl, refl, refl);
  timestamps = ("", " ", refl, refl, refl);
}

padding_ignored_example :
    ((parse : String → Option Time)
      → PaymentWebhook.validate parse (PaymentWebhook.normalize (λ c. c) spaced_webhook)
        ≡ PaymentWebhook.validate parse (PaymentWebhook.normalize (λ c. c) paid_webhook))
    × (payment_process cfg spaced_webhook (env_at 1000) payment_db
        ≡ payment_process cfg paid_webhook (env_at 1000) payment_db)
padding_ignored_example =
    padding_ignored cfg (env_at 1000) payment_db paid_webhook spaced_webhook spaced-PadsWebhook
