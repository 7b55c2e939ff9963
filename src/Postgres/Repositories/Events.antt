-- ===== src/Postgres/Repositories/Events.antt =====
-- event_repository.go.
use order_sync.Base.{String, Bool, Option}
use order_sync.Contracts.{EventType}
use order_sync.Postgres.Schema.{Payload}
use order_sync.Postgres.Tx.{Tx, wrapping, statement, reads, writes}
use order_sync.Postgres.Queries.Events.{
  insert_event, find_event_payload, mark_event_processed, mark_payment_events_processed,
}

unfoldable pub record_event : String → EventType → Payload → Tx Bool
record_event id event_type payload =
    wrapping "insert webhook event %q" (statement (insert_event id event_type payload))

unfoldable pub find_payload : EventType → String → Tx (Option Payload)
find_payload event_type id =
    wrapping "find webhook event payload %q"
      (statement (reads (λ env. find_event_payload event_type id)))

unfoldable pub mark_processed : EventType → String → Tx (Unit {0})
mark_processed event_type id =
    wrapping "mark webhook event %q processed"
      (statement (writes (λ env. mark_event_processed event_type id env.now)))

unfoldable pub mark_payment_events : String → Tx (Unit {0})
mark_payment_events order_id =
    wrapping "mark payment events for order %q processed"
      (statement (writes (λ env. mark_payment_events_processed order_id env.now)))
