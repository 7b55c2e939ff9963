-- ===== src/Postgres/Queries/Orders.antt =====
-- order_queries.go.
use order_sync.Base.{
  ℕ, suc, ◌+◌, ◌*◌, ◌^◌, String, Bool, true, false, not, ◌&&◌, Option, none, some, List, [], ◌∷◌,
  ◌++◌, map, text_eq, ◌==◌, ltb, if◌then◌else◌, find_row, filter_rows, has_row, update_rows,
}
use order_sync.Base.Int.{ℤ, pos, negsuc, pos_part}
use order_sync.Contracts.{
  Error, Result, Time, PaymentStatus, SyncStatus, OrderState, OrderItem, Price, OrderStatus,
  stored_price,
}
use order_sync.Postgres.Schema.{OrderRow, ItemRow, PaymentRow, JobRow, Tables}
use order_sync.Postgres.Tx.{Tx}

abbrev pub has_key : String → OrderRow → Bool
has_key order_id r = text_eq r.order_id order_id

abbrev pub has_id : ℕ → OrderRow → Bool
has_id id r = r.id == id

abbrev pub of_order : ℕ → JobRow → Bool
of_order id j = j.order_id == id

-- InsertOrder. The sequence moves also where the insertion meets a conflict.
unfoldable pub insert_order : String → String → Tx (Option ℕ)
insert_order order_id customer_email env s =
    let drawn = record s { next_order = suc s.next_order } in
    if has_row (has_key order_id) s.tables.orders then (Result.ok none, drawn) else (
      Result.ok (some s.next_order),
      record drawn {
        tables = record (s.tables) {
          orders =
              s.tables.orders
              ++ (record {
                id = s.next_order;
                order_id = order_id;
                customer_email = customer_email;
                payment_status = OrderState.pending;
                sap_id = none;
                paid_at = none;
              })
                ∷ [];
        };
      },
    )

-- The checks of `quantity INTEGER NOT NULL CHECK (quantity > 0)`.
abbrev pub quantity_fits : ℤ → Bool
quantity_fits (pos n) = ltb 0 n && ltb n (2 ^ 31)
quantity_fits (negsuc n) = false

abbrev pub add_item : ℕ → OrderItem → Option Price → Tx (Unit {0})
add_item id item none env s = (Result.err Error.database, s)
add_item id item (some price) env s =
    if quantity_fits item.quantity && has_row (has_id id) s.tables.orders
    then (
      Result.ok tt,
      record s {
        tables = record (s.tables) {
          items =
              s.tables.items
              ++ (record { order_id = id; item = record item { price = price } }) ∷ [];
        };
      },
    )
    else (Result.err Error.database, s)

-- InsertItem.
unfoldable pub insert_item : ℕ → OrderItem → Tx (Unit {0})
insert_item id item = add_item id item (stored_price item.price)

abbrev pub row_id : Option OrderRow → Option ℕ
row_id none = none
row_id (some r) = some r.id

-- FindOrderID.
unfoldable pub find_order_id : String → Tables → Option ℕ
find_order_id order_id t = row_id (find_row (has_key order_id) t.orders)

-- FindOrder: `id, customer_email`.
unfoldable pub find_order : String → Tables → Option OrderRow
find_order order_id t = find_row (has_key order_id) t.orders

abbrev pub pays_for : ℕ → PaymentRow → Bool
pays_for id p = elim p.order_id [ none ↦ false | some o ↦ o == id ]

-- COALESCE(p.status, 'NOT_RECEIVED')
abbrev pub payment_status_of : Option PaymentRow → PaymentStatus
payment_status_of none = PaymentStatus.other "NOT_RECEIVED"
payment_status_of (some p) = p.status

-- The columns that come from the joined row of sync_jobs, with
-- COALESCE(j.status, 'NOT_SCHEDULED').
abbrev status_row : OrderRow → PaymentStatus → Option JobRow → OrderStatus
status_row r payment none = record {
  order_id = r.order_id;
  customer_email = r.customer_email;
  status = r.payment_status;
  payment_status = payment;
  paid_at = r.paid_at;
  sync_status = SyncStatus.other "NOT_SCHEDULED";
  due_at = none;
  attempts = none;
  last_error = none;
  sap_internal_id = r.sap_id;
}
status_row r payment (some j) = record {
  order_id = r.order_id;
  customer_email = r.customer_email;
  status = r.payment_status;
  payment_status = payment;
  paid_at = r.paid_at;
  sync_status = j.status;
  due_at = some j.due_at;
  attempts = some j.attempts;
  last_error = j.last_error;
  sap_internal_id = r.sap_id;
}

abbrev join_status : Tables → Option OrderRow → Option OrderStatus
join_status t none = none
join_status t (some r) = some (
    status_row r (payment_status_of (find_row (pays_for r.id) t.payments))
      (find_row (of_order r.id) t.jobs))

-- FindStatus: the order with the first payment and the first job that join it.
unfoldable pub find_status : String → Tables → Option OrderStatus
find_status order_id t = join_status t (find_row (has_key order_id) t.orders)

abbrev pub item_of : ℕ → ItemRow → Bool
item_of id r = r.order_id == id

-- FindItems.
unfoldable pub find_items : ℕ → Tables → List OrderItem
find_items id t = map (λ (r : ItemRow). r.item) (filter_rows (item_of id) t.items)

-- MarkPaid.
unfoldable pub mark_paid : ℕ → Time → Tables → Tables
mark_paid id paid_at t = record t {
  orders =
      update_rows (has_id id)
        (λ r. record r { payment_status = OrderState.paid; paid_at = some paid_at }) t.orders;
}

-- `NOW() + delay * INTERVAL '1 second'`; the delay is not negative (config.Load).
abbrev pub due_after : Time → ℤ → Time
due_after now delay = now + pos_part delay * 10 ^ 9

abbrev pub new_job : ℕ → ℕ → Time → JobRow
new_job id order due = record {
  id = id;
  order_id = order;
  status = SyncStatus.pending;
  due_at = due;
  attempts = 0;
  locked_at = none;
  waiting_since = none;
  last_error = none;
  sap_internal_id = none;
  synced_at = none;
}

-- ScheduleSync: at most one job for an order; a job for no order breaks the foreign key.
unfoldable pub schedule_sync : ℕ → ℤ → Tx (Unit {0})
schedule_sync id delay env s =
    let drawn = record s { next_job = suc s.next_job } in
    if has_row (of_order id) s.tables.jobs
    then (Result.ok tt, drawn)
    else (if has_row (has_id id) s.tables.orders
        then (
          Result.ok tt,
          record drawn {
            tables = record (s.tables) {
              jobs = s.tables.jobs ++ new_job s.next_job id (due_after env.now delay) ∷ [];
            };
          },
        )
        else (Result.err Error.database, drawn))

-- `status IN ('PENDING', 'WAITING', 'DEAD')`
unfoldable pub is_cancellable : SyncStatus → Bool
is_cancellable SyncStatus.pending = true
is_cancellable SyncStatus.waiting = true
is_cancellable SyncStatus.dead = true
is_cancellable _ = false

-- CancelOrder: the order, unless a job of it is in another status.
unfoldable pub cancel_order : ℕ → Tables → Option ℕ
cancel_order id t =
    if has_row (has_id id) t.orders
      && not (has_row (λ j. of_order id j && not (is_cancellable j.status)) t.jobs)
    then some id
    else none

-- MarkCancelledOrder.
unfoldable pub mark_cancelled_order : ℕ → Tables → Tables
mark_cancelled_order id t = record t {
  orders =
      update_rows (has_id id) (λ r. record r { payment_status = OrderState.cancelled }) t.orders;
}

-- CancelJob.
unfoldable pub cancel_job : ℕ → Time → Tables → Tables
cancel_job id now t = record t {
  jobs =
      update_rows (λ j. of_order id j && is_cancellable j.status)
        (λ j. record j { status = SyncStatus.cancelled; locked_at = none; due_at = now }) t.jobs;
}
