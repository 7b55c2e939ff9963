-- ===== src/Postgres/Evolution/Repositories.antt =====
-- Every method of the repositories takes the tables forward.
use order_sync.Base.{ℕ, String, Option, none, some, List, [], ◌∷◌}
use order_sync.Base.Int.{ℤ}
use order_sync.Contracts.{Time, EventType, PaymentStatus, OrderItem}
use order_sync.Postgres.Schema.{OrderRow, PaymentRow, Payload}
use order_sync.Postgres.Repositories.Orders as OrderRepository
use order_sync.Postgres.Repositories.Payments as PaymentRepository
use order_sync.Postgres.Repositories.Events as EventRepository
use order_sync.Postgres.Evolution.Calls.{Steps, Steps-bind, Steps-writes, steps_rules}
use order_sync.Postgres.Evolution.Statements.{
  insert_order-Steps, insert_item-Steps, mark_paid-Writes, mark_cancelled_order-Writes,
  cancel_job-Writes, schedule_sync-Steps, insert_event-Steps, mark_event_processed-Writes,
  mark_payment_events_processed-Writes, link_payment_order-Steps, upsert_payment-Steps,
  cancel_payment-Steps,
}

pub create-Steps : (order_id email : String) → Steps (OrderRepository.create order_id email)
unfolding OrderRepository.create
create-Steps order_id email = search (steps_rules, insert_order-Steps)

pub find_id-Steps : (order_id : String) → Steps (OrderRepository.find_id order_id)
unfolding OrderRepository.find_id
find_id-Steps order_id = search steps_rules

pub list_items-Steps : (id : ℕ) → Steps (OrderRepository.list_items id)
unfolding OrderRepository.list_items
list_items-Steps id = search steps_rules

with_items-Steps : (row : Option OrderRow) → Steps (OrderRepository.with_items row)
with_items-Steps none = search steps_rules
with_items-Steps (some r) = search (steps_rules, list_items-Steps)

pub find_order-Steps : (order_id : String) → Steps (OrderRepository.find order_id)
unfolding OrderRepository.find
find_order-Steps order_id = search (steps_rules, with_items-Steps)

pub find_status_of-Steps : (order_id : String) → Steps (OrderRepository.find_status_of order_id)
unfolding OrderRepository.find_status_of
find_status_of-Steps order_id = search steps_rules

pub mark_paid_at-Steps : (id : ℕ) (at : Time) → Steps (OrderRepository.mark_paid_at id at)
unfolding OrderRepository.mark_paid_at
mark_paid_at-Steps id at = search (steps_rules, Steps-writes, mark_paid-Writes)

pub add_items-Steps : (id : ℕ) (items : List OrderItem) → Steps (OrderRepository.add_items id items)
unfolding OrderRepository.add_items
add_items-Steps id [] = search steps_rules
add_items-Steps id (item ∷ items) =
    Steps-bind _ _ (search (steps_rules, insert_item-Steps)) (λ _. add_items-Steps id items)

pub schedule-Steps : (id : ℕ) (delay : ℤ) → Steps (OrderRepository.schedule id delay)
unfolding OrderRepository.schedule
schedule-Steps id delay = search (steps_rules, schedule_sync-Steps)

cancel_found-Steps : (id : ℕ) (found : Option ℕ) → Steps (OrderRepository.cancel_found id found)
cancel_found-Steps id none = search steps_rules
cancel_found-Steps id (some _) =
    search (steps_rules, Steps-writes, mark_cancelled_order-Writes, cancel_job-Writes)

pub cancel_order-Steps : (id : ℕ) → Steps (OrderRepository.cancel id)
unfolding OrderRepository.cancel
cancel_order-Steps id = search (steps_rules, cancel_found-Steps)

pub has_hardware-Steps : (skus : List String) → Steps (OrderRepository.has_hardware skus)
unfolding OrderRepository.has_hardware
has_hardware-Steps [] = search steps_rules
has_hardware-Steps (sku ∷ skus) = search steps_rules

state_or_finalized-Steps :
    (row : Option PaymentRow) → Steps (PaymentRepository.state_or_finalized row)
state_or_finalized-Steps none = search steps_rules
state_or_finalized-Steps (some p) = search steps_rules

pub upsert-Steps :
    (reference : String) (status : PaymentStatus) (order_id : Option ℕ) (at : Option Time)
    → Steps (PaymentRepository.upsert reference status order_id at)
unfolding PaymentRepository.upsert
upsert-Steps reference status order_id at =
    search (steps_rules, upsert_payment-Steps, state_or_finalized-Steps)

pub cancel_payment_state-Steps :
    (reference : String) (order_id : Option ℕ) → Steps (PaymentRepository.cancel reference order_id)
unfolding PaymentRepository.cancel
cancel_payment_state-Steps reference order_id =
    search (steps_rules, cancel_payment-Steps, state_or_finalized-Steps)

pub find_payment-Steps : (reference : String) → Steps (PaymentRepository.find reference)
unfolding PaymentRepository.find
find_payment-Steps reference = search steps_rules

pub link_order-Steps :
    (reference : String) (id : ℕ) → Steps (PaymentRepository.link_order reference id)
unfolding PaymentRepository.link_order
link_order-Steps reference id = search (steps_rules, link_payment_order-Steps)

pub record_event-Steps :
    (id : String) (event_type : EventType) (payload : Payload)
    → Steps (EventRepository.record_event id event_type payload)
unfolding EventRepository.record_event
record_event-Steps id event_type payload = search (steps_rules, insert_event-Steps)

pub find_payload-Steps :
    (event_type : EventType) (id : String) → Steps (EventRepository.find_payload event_type id)
unfolding EventRepository.find_payload
find_payload-Steps event_type id = search steps_rules

pub mark_processed-Steps :
    (event_type : EventType) (id : String) → Steps (EventRepository.mark_processed event_type id)
unfolding EventRepository.mark_processed
mark_processed-Steps event_type id = search (steps_rules, Steps-writes, mark_event_processed-Writes)

pub mark_payment_events-Steps :
    (order_id : String) → Steps (EventRepository.mark_payment_events order_id)
unfolding EventRepository.mark_payment_events
mark_payment_events-Steps order_id =
    search (steps_rules, Steps-writes, mark_payment_events_processed-Writes)

pub ruleset repository_rules = (
  steps_rules, create-Steps, find_id-Steps, list_items-Steps, find_order-Steps,
  find_status_of-Steps, mark_paid_at-Steps, add_items-Steps, schedule-Steps, cancel_order-Steps,
  has_hardware-Steps, upsert-Steps, cancel_payment_state-Steps, find_payment-Steps,
  link_order-Steps, record_event-Steps, find_payload-Steps, mark_processed-Steps,
  mark_payment_events-Steps,
)
