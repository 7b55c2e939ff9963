-- ===== src/Shop/Service.antt =====
-- internal/shop/service.go. Each function below is a stretch of `processShop` up to a return.
use order_sync.Base.{
  ℕ, String, Bool, true, false, not, ◌&&◌, Option, none, some, List, [], ◌∷◌, text_eq, length, ◌==◌,
  if◌then◌else◌,
}
use order_sync.Base.Int.{eq_ℤ}
use order_sync.Config.{Config}
use order_sync.Contracts.{
  Error, Time, EventType, PaymentStatus, OrderItem, StoredOrder, PaymentState, WebhookResult,
  price_eq,
}
use order_sync.Orders.{mark_paid_and_schedule}
use order_sync.Payment.Service.{bare_result, with_status}
use order_sync.Postgres.Schema.{Payload}
use order_sync.Postgres.Tx.{Tx, pure, throw, ◌>>=◌, ◌>>◌, wrapping}
use order_sync.Postgres.Repositories.Orders as OrderRepository
use order_sync.Postgres.Repositories.Payments as PaymentRepository
use order_sync.Postgres.Repositories.Events as EventRepository
use order_sync.Shop.Webhook.{Webhook}

-- sameHardwareOverride.
unfoldable pub same_override : Option Bool → Option Bool → Bool
same_override none none = true
same_override (some true) (some true) = true
same_override (some false) (some false) = true
same_override _ _ = false

-- The comparison of two items in sameOrderPayload.
unfoldable pub same_item : OrderItem → OrderItem → Bool
unfolding same_override
same_item a b =
    text_eq a.sku b.sku
    && eq_ℤ a.quantity b.quantity
    && price_eq a.price b.price
    && same_override a.is_hardware b.is_hardware

-- The incoming items, each with its entry of `matched`.
abbrev pub Marked : Type 0
Marked = List (OrderItem × Bool)

-- `matched := make([]bool, len(payload.Items))`
unfoldable pub unmarked : List OrderItem → Marked
unmarked [] = []
unmarked (item ∷ items) = (item, false) ∷ unmarked items

-- The inner loop: mark the first incoming item that is not marked and is the same; `none` is
-- `!found`.
unfoldable pub mark_match : OrderItem → Marked → Option Marked
unfolding same_item
mark_match item [] = none
mark_match item ((incoming, matched) ∷ rest) =
    let later = mark_match item rest in
    if not matched && same_item item incoming
    then some ((incoming, true) ∷ rest)
    else elim later [ none ↦ none | some marks ↦ some ((incoming, matched) ∷ marks) ]

-- The outer loop.
unfoldable pub match_all : List OrderItem → Marked → Bool
unfolding mark_match
match_all [] marks = true
match_all (item ∷ items) marks = elim (mark_match item marks) [
  | none ↦ false
  | some marks' ↦ match_all items marks'
]

-- sameOrderPayload.
unfoldable pub same_order_payload : StoredOrder → Webhook → Bool
unfolding match_all unmarked
same_order_payload existing payload =
    text_eq existing.customer_email payload.customer_email
    && length existing.items == length payload.items
    && match_all existing.items (unmarked payload.items)

-- shopResult.
unfoldable pub shop_result : String → String → String → Tx WebhookResult
shop_result event_id order_id message = do
  status ← wrapping "load order status for %q" (OrderRepository.find_status_of order_id)
  pure (with_status (bare_result message event_id order_id) status)

abbrev pub matches_order : Webhook → Option StoredOrder → Bool
matches_order payload none = false
matches_order payload (some existing) = same_order_payload existing payload

-- Find, and the conflict if the payload is another.
unfoldable pub require_same_order : Webhook → Tx (Unit {0})
unfolding same_order_payload
require_same_order payload = do
  existing ← wrapping "load existing order %q" (OrderRepository.find payload.order_id)
  if matches_order payload existing then pure tt else throw Error.order_payload_conflict

abbrev pub duplicate_of : WebhookResult → WebhookResult
duplicate_of result = record result { duplicate = true }

-- `if !newEvent { ... }`
unfoldable pub replay_event : Webhook → Tx WebhookResult
unfolding require_same_order
replay_event payload = do
  require_same_order payload
  result ← shop_result payload.event_id payload.order_id "Shop event already processed"
  pure (duplicate_of result)

abbrev pub mark_event : Webhook → Tx (Unit {0})
mark_event payload =
    wrapping "mark shop event %q processed"
      (EventRepository.mark_processed EventType.shop payload.event_id)

-- `if orderID == 0 { ... }`
unfoldable pub replay_order : Webhook → Tx WebhookResult
unfolding require_same_order
replay_order payload = do
  require_same_order payload
  mark_event payload
  result ← shop_result payload.event_id payload.order_id "Shop order already stored"
  pure (duplicate_of result)

abbrev pub link_if_unlinked : Webhook → ℕ → Option ℕ → Tx (Unit {0})
link_if_unlinked payload id (some _) = pure tt
link_if_unlinked payload id none =
    wrapping "link payment to order %d" (PaymentRepository.link_order payload.order_id id)

abbrev pub mark_payment_events : Webhook → Tx (Unit {0})
mark_payment_events payload =
    wrapping "mark payment events for order %q processed"
      (EventRepository.mark_payment_events payload.order_id)

abbrev pub reconcile_completed : Config → Webhook → ℕ → Option Time → Tx (Unit {0})
reconcile_completed cfg payload id none =
    throw (Error.message "completed payment %s has no paid_at")
reconcile_completed cfg payload id (some paid_at) = do
  wrapping "mark order %d paid" (mark_paid_and_schedule cfg id payload.items paid_at)
  mark_payment_events payload

-- The rest of reconcilePayment by the payment's status.
abbrev pub reconcile_by : Config → Webhook → ℕ → Option Time → PaymentStatus → Tx (Unit {0})
reconcile_by cfg payload id paid_at PaymentStatus.cancelled = do
  OrderRepository.cancel id
  mark_payment_events payload
reconcile_by cfg payload id paid_at PaymentStatus.completed =
    reconcile_completed cfg payload id paid_at
reconcile_by cfg payload id paid_at _ = pure tt

unfoldable pub reconcile_status : Config → Webhook → ℕ → PaymentState → Tx (Unit {0})
reconcile_status cfg payload id state = reconcile_by cfg payload id state.paid_at state.status

abbrev pub reconcile_found : Config → Webhook → ℕ → Option PaymentState → Tx (Unit {0})
reconcile_found cfg payload id none = pure tt
reconcile_found cfg payload id (some state) = do
  link_if_unlinked payload id state.order_id
  reconcile_status cfg payload id state

-- reconcilePayment.
unfoldable pub reconcile_payment : Config → Webhook → ℕ → Tx (Unit {0})
unfolding reconcile_status
reconcile_payment cfg payload id = do
  state ← wrapping "find payment for order %q" (PaymentRepository.find payload.order_id)
  reconcile_found cfg payload id state

-- From AddItems to the end.
unfoldable pub store_order : Config → Webhook → ℕ → Tx WebhookResult
unfolding reconcile_payment
store_order cfg payload id = do
  wrapping "store items for order %d" (OrderRepository.add_items id payload.items)
  reconcile_payment cfg payload id
  mark_event payload
  shop_result payload.event_id payload.order_id "Order stored"

abbrev pub created_order : Config → Webhook → ℕ → Tx WebhookResult
created_order cfg payload id = if id == 0 then replay_order payload else store_order cfg payload id

-- From Create to the end.
unfoldable pub new_event : Config → Webhook → Tx WebhookResult
unfolding replay_order store_order
new_event cfg payload = do
  id ← wrapping "create order %q" (OrderRepository.create payload.order_id payload.customer_email)
  created_order cfg payload id

-- processShop.
unfoldable pub process_shop : Config → Webhook → Tx WebhookResult
process_shop cfg payload = do
  is_new ←
      wrapping "record shop event"
        (EventRepository.record_event payload.event_id EventType.shop (Payload.shop payload))
  if is_new then new_event cfg payload else replay_event payload
