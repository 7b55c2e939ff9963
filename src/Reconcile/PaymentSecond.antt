-- ===== src/Reconcile/PaymentSecond.antt =====
-- processPayment of a completed payment whose order is stored.
use order_sync.Base.{
  ℕ, suc, ◌<◌, String, true, not, ◌&&◌, none, some, List, [], ◌∷◌, ◌++◌, ◌≡◌, refl, ap, ◌∙◌, arith,
  find_row, has_row, has_row-none, find_row-narrower,
}
use order_sync.Config.{Config}
use order_sync.Contracts.{Result, Time, EventType, PaymentStatus, OrderItem}
use order_sync.Payment.Service as Payment
use order_sync.Postgres.Queries.Events.{is_event, mark_event_processed}
use order_sync.Postgres.Queries.Orders.{
  has_key, has_id, of_order, pays_for, find_items, new_job, due_after,
}
use order_sync.Postgres.Queries.Payments.{has_reference, order_fits, proposed}
use order_sync.Postgres.Queries.Skus.{has_hardware_sku}
use order_sync.Postgres.Repositories.Events as EventRepository
use order_sync.Postgres.Repositories.Orders as OrderRepository
use order_sync.Postgres.Repositories.Payments as PaymentRepository
use order_sync.Postgres.Schema.{OrderRow, Payload, Tables, Db, Env}
use order_sync.Postgres.Tx.{pure, ◌>>=◌, wrapping, statement, reads, writes}
use order_sync.Reconcile.{sent}
use order_sync.Reconcile.Calls.{
  Leaves, bind-ok, wrapping-ok, stored-has_row, find_order_id-sent, upsert-new,
}
use order_sync.Reconcile.First.{
  positive-ne_zero, processed, completed, recorded, process_payment-recorded,
}
use order_sync.Reconcile.Paid.{
  read_back, paid_row, delay_of, item_skus-read_back, any_override-read_back,
  mark_paid_and_schedule-new,
}

list_items-sent :
    (env : Env) (now : Time) (id : ℕ) (items : List OrderItem) (u : Db)
    → find_items id u.tables ≡ items
    → wrapping "load items for order %d" (OrderRepository.list_items id) (sent env now) u
      ≡ (Result.ok items, record u { calls = suc u.calls })
unfolding OrderRepository.list_items wrapping statement reads
list_items-sent env now id items u h = rw h refl

-- No other payment has the order.
pub order_fits-unpaid :
    (reference : String) (id : ℕ) (t : Tables)
    → has_row (has_id id) t.orders ≡ true
    → find_row (pays_for id) t.payments ≡ none
    → order_fits reference (some id) t ≡ true
unfolding order_fits
order_fits-unpaid reference id t known unpaid =
    rw
      (
        known,
        has_row-none _ t.payments (
            find_row-narrower (pays_for id) (λ p. not (has_reference reference p) && pays_for id p)
              (λ p h. ground (arith, h)) t.payments unpaid),
      )
      refl

module _ (cfg : Config) (event_id reference timestamp : String) (env : Env) (now at : Time)
    (items : List OrderItem) (rows : List OrderRow) (r : OrderRow) where
  -- The end of processPayment.
  payment_ends :
      (id : ℕ) (u : Db)
      → Leaves
          (Payment.payment_result event_id reference Payment.message_order_marked_paid (some id))
          (sent env now)
          u
          u
  unfolding Payment.payment_result OrderRepository.find_status_of wrapping statement reads pure
      ◌>>=◌
  payment_ends id u = (_, suc u.calls, refl)

  mark_event-sent :
      (u : Db)
      → Payment.mark_event (completed event_id reference timestamp) (sent env now) u ≡ (
        Result.ok tt,
        record u {
          calls = suc u.calls;
          tables = mark_event_processed EventType.payment event_id now u.tables;
        },
      )
  unfolding EventRepository.mark_processed wrapping statement writes
  mark_event-sent u = refl

  -- What marking the order paid, scheduling its job and marking the event leave.
  abbrev pub paid_up : Db → Db
  paid_up u = record u {
    next_job = suc u.next_job;
    tables = mark_event_processed EventType.payment event_id now (record (u.tables) {
      orders = rows ++ paid_row at r ∷ [];
      jobs =
          u.tables.jobs
          ++ new_job u.next_job r.id (due_after now (delay_of cfg items u.tables)) ∷ [];
    });
  }

  complete_payment-new :
      (u : Db) (payment : ℕ)
      → u.tables.orders ≡ rows ++ r ∷ []
      → find_row (has_id r.id) rows ≡ none
      → find_row (of_order r.id) u.tables.jobs ≡ none
      → find_items r.id u.tables ≡ read_back items
      → Leaves
          (Payment.complete_payment cfg
            (completed event_id reference timestamp)
            (PaymentRepository.scan_state
              (proposed payment reference (some r.id) PaymentStatus.completed (some at)))
            r.id)
          (sent env now)
          u
          (paid_up u)
  unfolding Payment.complete_payment
  complete_payment-new u payment last absent no_job stored =
      let scheduled =
        mark_paid_and_schedule-new env now cfg (read_back items) at
          (record u { calls = suc u.calls }) rows r last absent no_job in
      (
        tt,
        suc scheduled.1,
        bind-ok _ _ (sent env now) u (list_items-sent env now r.id (read_back items) u stored)
            ∙ bind-ok _ _ (sent env now) _
                (wrapping-ok "mark order %d paid" _ (sent env now) _ scheduled.2)
            ∙ mark_event-sent _
            ∙ rw (item_skus-read_back items, any_override-read_back items) refl,
      )

  find_order_id-known :
      (u : Db)
      → 0 < r.id
      → find_row (has_key reference) u.tables.orders ≡ some r
      → Payment.find_order_id reference (sent env now) u
        ≡ (Result.ok (some r.id), record u { calls = suc u.calls })
  find_order_id-known u positive found =
      find_order_id-sent env now reference u (some r) found
      ∙ rw (positive-ne_zero r.id positive) refl

  -- The payment of a stored order.
  pub process_payment-second :
      (u : Db)
      → env.parse_rfc3339 timestamp ≡ some at
      → 0 < r.id
      → u.tables.orders ≡ rows ++ r ∷ []
      → find_row (has_key reference) u.tables.orders ≡ some r
      → find_row (has_id r.id) rows ≡ none
      → find_items r.id u.tables ≡ read_back items
      → find_row (is_event EventType.payment event_id) u.tables.events ≡ none
      → find_row (has_reference reference) u.tables.payments ≡ none
      → find_row (pays_for r.id) u.tables.payments ≡ none
      → find_row (of_order r.id) u.tables.jobs ≡ none
      → Leaves
          (Payment.process_payment cfg (completed event_id reference timestamp))
          (sent env now)
          u
          (record u {
            next_payment = suc u.next_payment;
            next_job = suc u.next_job;
            tables = record (u.tables) {
              orders = rows ++ paid_row at r ∷ [];
              events =
                  processed EventType.payment event_id
                    (Payload.payment (completed event_id reference timestamp))
                    now
                    u.tables;
              payments =
                  u.tables.payments
                  ++ proposed u.next_payment reference (some r.id) PaymentStatus.completed (some at)
                    ∷ [];
              jobs =
                  u.tables.jobs
                  ++ new_job u.next_job r.id (due_after now (delay_of cfg items u.tables)) ∷ [];
            };
          })
  unfolding Payment.store_payment mark_event_processed find_items has_hardware_sku
  process_payment-second u parsed positive last found absent stored event_new payment_new unpaid
        no_job =
      let reached =
        recorded cfg event_id reference timestamp env now at u parsed event_new payment_new in
      let known : has_row (has_id r.id) u.tables.orders ≡ true =
        ap (has_row (has_id r.id)) last ∙ stored-has_row rows r in
      let completes = complete_payment-new _ u.next_payment last absent no_job stored in
      let ends = payment_ends r.id _ in
      (
        ends.0,
        ends.1,
        process_payment-recorded cfg event_id reference timestamp env now at u parsed event_new
              payment_new
            ∙ bind-ok _ _ (sent env now) _ (find_order_id-known reached positive found)
            ∙ bind-ok _ _ (sent env now) _ (
                upsert-new env now "upsert payment %q" reference (some r.id) at _ payment_new
                  (order_fits-unpaid reference r.id _ known unpaid))
            ∙ bind-ok _ _ (sent env now) _ completes.2
            ∙ ends.2,
      )
