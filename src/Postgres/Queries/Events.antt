-- ===== src/Postgres/Queries/Events.antt =====
-- event_queries.go.
use order_sync.Base.{
  String, Bool, true, false, ◌&&◌, Option, none, some, [], ◌∷◌, ◌++◌, text_eq, if◌then◌else◌,
  find_row, has_row, update_rows,
}
use order_sync.Contracts.{Result, Time, EventType}
use order_sync.Postgres.Schema.{Payload, EventRow, Tables}
use order_sync.Postgres.Tx.{Tx}

unfoldable pub same_type : EventType → EventType → Bool
same_type EventType.shop EventType.shop = true
same_type EventType.payment EventType.payment = true
same_type _ _ = false

abbrev pub is_event : EventType → String → EventRow → Bool
is_event event_type id e = same_type e.event_type event_type && text_eq e.event_id id

-- InsertEvent: whether a row was inserted.
unfoldable pub insert_event : String → EventType → Payload → Tx Bool
insert_event id event_type payload env s =
    if has_row (is_event event_type id) s.tables.events then (Result.ok false, s) else (
      Result.ok true,
      record s {
        tables = record (s.tables) {
          events =
              s.tables.events
              ++ (record {
                event_id = id;
                event_type = event_type;
                payload = payload;
                processed_at = none;
              })
                ∷ [];
        };
      },
    )

-- FindEventPayload.
unfoldable pub find_event_payload : EventType → String → Tables → Option Payload
find_event_payload event_type id t = elim (find_row (is_event event_type id) t.events) [
  | none ↦ none
  | some e ↦ some e.payload
]

-- MarkEventProcessed.
unfoldable pub mark_event_processed : EventType → String → Time → Tables → Tables
mark_event_processed event_type id now t = record t {
  events =
      update_rows (is_event event_type id) (λ e. record e { processed_at = some now }) t.events;
}

-- `payload->>'reference_order_id' = order_id`
abbrev refers_to : String → Payload → Bool
refers_to order_id (Payload.shop w) = false
refers_to order_id (Payload.payment w) = text_eq w.reference_order_id order_id

abbrev is_open : Option Time → Bool
is_open none = true
is_open (some _) = false

-- MarkPaymentEventsProcessed.
unfoldable pub mark_payment_events_processed : String → Time → Tables → Tables
mark_payment_events_processed order_id now t = record t {
  events =
      update_rows
        (λ e.
          same_type e.event_type EventType.payment
          && refers_to order_id e.payload
          && is_open e.processed_at)
        (λ e. record e { processed_at = some now }) t.events;
}
