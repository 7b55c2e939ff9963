-- ===== src/Payment/Service.antt =====
-- internal/payment/service.go. Each function below is a stretch of `processPayment` up to a return,
-- in the order of the source.
use order_sync.Base.{
  ℕ, Char, String, Bool, true, false, ◌&&◌, ◌||◌, Option, none, some, List, [], ◌∷◌, text_eq, ◌==◌,
  if◌then◌else◌,
}
use order_sync.Config.{Config}
use order_sync.Contracts.{
  Error, Time, EventType, PaymentStatus, SyncStatus, OrderState, OrderItem, OrderStatus,
  PaymentState, WebhookResult, same_status,
}
use order_sync.Orders.{any_override, mark_paid_and_schedule}
use order_sync.Postgres.Schema.{Payload}
use order_sync.Postgres.Tx.{Tx, pure, throw, ◌>>=◌, ◌>>◌, wrapping}
use order_sync.Postgres.Repositories.Orders as OrderRepository
use order_sync.Postgres.Repositories.Payments as PaymentRepository
use order_sync.Postgres.Repositories.Events as EventRepository
use order_sync.Payment.Webhook.{Webhook, normalize}

abbrev pub message_payment_recorded : String
message_payment_recorded = "Payment status recorded; order remains unpaid"

abbrev pub message_awaiting_shop_order : String
message_awaiting_shop_order = "Payment stored and awaiting shop order"

abbrev pub message_order_marked_paid : String
message_order_marked_paid = "Order marked paid and SAP sync scheduled"

abbrev pub message_order_cancelled : String
message_order_cancelled = "Order cancelled"

unfoldable pub same_payment_payload : Webhook → Webhook → Bool
unfolding same_status
same_payment_payload left right =
    text_eq left.reference_order_id right.reference_order_id
    && same_status left.payment_status right.payment_status
    && text_eq left.timestamp right.timestamp

unfoldable pub is_terminal : PaymentStatus → Bool
is_terminal PaymentStatus.completed = true
is_terminal PaymentStatus.cancelled = true
is_terminal _ = false

-- The result with a message, before the statuses are filled in.
abbrev pub bare_result : String → String → String → WebhookResult
bare_result message event_id order_id = record {
  duplicate = false;
  message = message;
  event_id = event_id;
  order_id = order_id;
  payment_status = PaymentStatus.other "";
  order_status = OrderState.other "";
  sync_status = SyncStatus.other "";
}

abbrev pub with_status : WebhookResult → Option OrderStatus → WebhookResult
with_status result none = result
with_status result (some status) = record result {
  payment_status = status.payment_status;
  order_status = status.status;
  sync_status = status.sync_status;
}

unfoldable pub payment_result : String → String → String → Option ℕ → Tx WebhookResult
payment_result event_id order_id message none = pure (bare_result message event_id order_id)
payment_result event_id order_id message (some _) = do
  status ← wrapping "load order status for %q" (OrderRepository.find_status_of order_id)
  pure (with_status (bare_result message event_id order_id) status)

-- The stored bytes read back with json.Unmarshal: the fields of a shop payload that a payment
-- payload lacks are ignored, and the ones it has more stay empty.
abbrev pub decode_payload : Payload → Webhook
decode_payload (Payload.payment w) = w
decode_payload (Payload.shop w) = record {
  event_id = w.event_id;
  reference_order_id = "";
  payment_status = PaymentStatus.other "";
  timestamp = "";
}

abbrev pub matches_stored : (Char → Char) → Webhook → Option Payload → Bool
matches_stored upper payload none = false
matches_stored upper payload (some stored) =
    same_payment_payload (normalize upper (decode_payload stored)) payload

-- The result of an event that changes nothing.
abbrev pub duplicate_result : String → Webhook → PaymentState → Tx WebhookResult
duplicate_result message payload existing = do
  result ← payment_result payload.event_id payload.reference_order_id message existing.order_id
  pure (record result { duplicate = true; payment_status = existing.status })

abbrev pub replay_existing : Webhook → Option PaymentState → Tx WebhookResult
replay_existing payload none =
    throw (Error.message "load payment %q for duplicate event: payment not found")
replay_existing payload (some existing) =
    duplicate_result "Payment event already processed" payload existing

abbrev pub replay_matching : Webhook → Bool → Tx WebhookResult
replay_matching payload false = throw Error.payment_payload_conflict
replay_matching payload true = do
  existing ← wrapping "find payment %q" (PaymentRepository.find payload.reference_order_id)
  replay_existing payload existing

abbrev pub replay_with : (Char → Char) → Webhook → Tx WebhookResult
replay_with upper payload = do
  stored ←
      wrapping "load payment event %q"
        (EventRepository.find_payload EventType.payment payload.event_id)
  replay_matching payload (matches_stored upper payload stored)

-- `if !newEvent { ... }`
unfoldable pub replay_event : Webhook → Tx WebhookResult
replay_event payload env = replay_with env.upper payload env

abbrev pub mark_event : Webhook → Tx (Unit {0})
mark_event payload =
    wrapping "mark payment event %q processed"
      (EventRepository.mark_processed EventType.payment payload.event_id)

-- `if existing != nil && isTerminal(existing.Status) { ... }`
unfoldable pub replay_terminal : Webhook → PaymentState → Tx WebhookResult
unfolding same_status
replay_terminal payload existing =
    if same_status existing.status payload.payment_status
    then (do mark_event payload; duplicate_result "Payment already finalized" payload existing)
    else throw Error.payment_finalized

abbrev pub order_id_of : ℕ → Option ℕ
order_id_of id = if id == 0 then none else some id

-- findOrderID.
unfoldable pub find_order_id : String → Tx (Option ℕ)
find_order_id reference = do
  id ← wrapping "find order %q" (OrderRepository.find_id reference)
  pure (order_id_of id)

-- paymentItemSKUs: the SKUs of the items with no override, in their order.
unfoldable pub payment_item_skus : List OrderItem → List String
payment_item_skus [] = []
payment_item_skus (item ∷ items) =
    let rest = payment_item_skus items in
    elim item.is_hardware [ none ↦ item.sku ∷ rest | some _ ↦ rest ]

-- The check of cancelPayment on the items of a known order.
unfoldable pub require_hardware : ℕ → Tx (Unit {0})
unfolding payment_item_skus any_override
require_hardware id = do
  items ← wrapping "load items for order %d" (OrderRepository.list_items id)
  hardware ← wrapping "classify order %d" (OrderRepository.has_hardware (payment_item_skus items))
  if hardware || any_override items then pure tt else throw Error.digital_cancellation

-- cancelPayment.
unfoldable pub cancel_payment : Webhook → Option ℕ → Tx WebhookResult
unfolding require_hardware
cancel_payment payload none = do
  PaymentRepository.cancel payload.reference_order_id none
  mark_event payload
  pure (record (bare_result message_payment_recorded payload.event_id payload.reference_order_id) {
    payment_status = PaymentStatus.cancelled;
  })
cancel_payment payload (some id) = do
  require_hardware id
  PaymentRepository.cancel payload.reference_order_id (some id)
  OrderRepository.cancel id
  mark_event payload
  payment_result payload.event_id payload.reference_order_id message_order_cancelled (some id)

abbrev pub schedule_paid : Config → ℕ → List OrderItem → Option Time → Tx (Unit {0})
schedule_paid cfg id items none = throw (Error.message "completed payment %s has no paid_at")
schedule_paid cfg id items (some paid_at) =
    wrapping "mark order %d paid" (mark_paid_and_schedule cfg id items paid_at)

-- completePayment; its message is `message_order_marked_paid`.
unfoldable pub complete_payment : Config → Webhook → PaymentState → ℕ → Tx (Unit {0})
complete_payment cfg payload state id = do
  items ← wrapping "load items for order %d" (OrderRepository.list_items id)
  schedule_paid cfg id items state.paid_at
  mark_event payload

abbrev pub is_completed : PaymentStatus → Bool
is_completed PaymentStatus.completed = true
is_completed _ = false

abbrev pub is_cancelled : PaymentStatus → Bool
is_cancelled PaymentStatus.cancelled = true
is_cancelled _ = false

-- What follows a completed payment.
abbrev pub after_completed : Config → Webhook → PaymentState → Option ℕ → Tx WebhookResult
after_completed cfg payload state none = do
  mark_event payload
  pure
      (record (bare_result message_awaiting_shop_order payload.event_id
        payload.reference_order_id) { payment_status = state.status })
after_completed cfg payload state (some id) = do
  complete_payment cfg payload state id
  payment_result payload.event_id payload.reference_order_id message_order_marked_paid (some id)

-- What follows Upsert, by whether the payment is completed.
abbrev pub after_upsert : Config → Webhook → PaymentState → Option ℕ → Bool → Tx WebhookResult
after_upsert cfg payload state order_id true = after_completed cfg payload state order_id
after_upsert cfg payload state order_id false = do
  mark_event payload
  payment_result payload.event_id payload.reference_order_id message_payment_recorded order_id

-- From Upsert to the end.
unfoldable pub store_payment : Config → Webhook → Time → Option ℕ → Tx WebhookResult
unfolding complete_payment
store_payment cfg payload timestamp order_id = do
  let completed = is_completed payload.payment_status
  state ← wrapping "upsert payment %q" (
      PaymentRepository.upsert payload.reference_order_id payload.payment_status order_id
        (if completed then some timestamp else none))
  after_upsert cfg payload state order_id completed

abbrev pub apply_at : Config → Webhook → Option Time → Tx WebhookResult
apply_at cfg payload none = throw (Error.wrap "parse payment timestamp" Error.bad_timestamp)
apply_at cfg payload (some timestamp) = do
  order_id ← find_order_id payload.reference_order_id
  if is_cancelled payload.payment_status
      then cancel_payment payload order_id
      else store_payment cfg payload timestamp order_id

-- From time.Parse to the end.
unfoldable pub apply_event : Config → Webhook → Tx WebhookResult
unfolding find_order_id cancel_payment store_payment
apply_event cfg payload env = apply_at cfg payload (env.parse_rfc3339 payload.timestamp) env

abbrev pub new_event : Config → Webhook → Option PaymentState → Tx WebhookResult
new_event cfg payload none = apply_event cfg payload
new_event cfg payload (some existing) =
    if is_terminal existing.status
    then replay_terminal payload existing
    else apply_event cfg payload

abbrev pub recorded_event : Config → Webhook → Bool → Tx WebhookResult
recorded_event cfg payload false = replay_event payload
recorded_event cfg payload true = do
  existing ← wrapping "find payment %q" (PaymentRepository.find payload.reference_order_id)
  new_event cfg payload existing

-- processPayment.
unfoldable pub process_payment : Config → Webhook → Tx WebhookResult
process_payment cfg payload = do
  is_new ←
      wrapping "record payment event"
        (EventRepository.record_event payload.event_id EventType.payment (Payload.payment payload))
  recorded_event cfg payload is_new
