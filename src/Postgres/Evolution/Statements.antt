-- ===== src/Postgres/Evolution/Statements.antt =====
-- Every statement that a webhook's transaction sends takes the tables forward.
use order_sync.Base.{
  ℕ, suc, String, ◌&&◌, Option, none, some, List, ◌≡◌, refl, arith, inl, inr, has_row, find_row,
  Bool-cases,
}
use order_sync.Base.Int.{ℤ}
use order_sync.Contracts.{
  Time, EventType, PaymentStatus, SyncStatus, OrderItem, Price, stored_price,
}
use order_sync.Postgres.Schema.{OrderRow, PaymentRow, EventRow, JobRow, Payload, Tables}
use order_sync.Postgres.Queries.Orders.{
  has_key, has_id, of_order, insert_order, insert_item, add_item, quantity_fits, mark_paid,
  schedule_sync, mark_cancelled_order, cancel_job,
}
use order_sync.Postgres.Queries.Payments.{
  has_reference, is_open_status, upsert_payment, link_payment_order, cancel_payment, put_payment,
  order_fits, status_allowed, proposed,
}
use order_sync.Postgres.Queries.Events.{
  is_event, insert_event, mark_event_processed, mark_payment_events_processed,
}
use order_sync.Postgres.Evolution.Tables.{
  KeepsRows-insert, KeepsRows-update, SamePayment, SameOrder, SameEvent, SameJob, JobKey, job_key,
  event_key, Evolves, KeepsRows, Evolves-refl,
}
use order_sync.Postgres.Ids.{
  KeepsIds-refl, update_rows-KeepsIds, Draws-refl, Draws-same, Draws-trans, Draws-insert,
}
use order_sync.Postgres.Evolution.Calls.{Steps, Writes}

-- A change of one table.
orders-Evolves :
    (t : Tables) (rows : List OrderRow)
    → KeepsRows has_key SameOrder t.orders rows
    → Evolves t (record t { orders = rows })
orders-Evolves t rows h =
    let same = Evolves-refl t in
    record {
      orders = h;
      events = same.events;
      payments = same.payments;
      jobs = same.jobs;
      skus = refl;
    }

events-Evolves :
    (t : Tables) (rows : List EventRow)
    → KeepsRows event_key SameEvent t.events rows
    → Evolves t (record t { events = rows })
events-Evolves t rows h =
    let same = Evolves-refl t in
    record {
      orders = same.orders;
      events = h;
      payments = same.payments;
      jobs = same.jobs;
      skus = refl;
    }

payments-Evolves :
    (t : Tables) (rows : List PaymentRow)
    → KeepsRows has_reference SamePayment t.payments rows
    → Evolves t (record t { payments = rows })
payments-Evolves t rows h =
    let same = Evolves-refl t in
    record {
      orders = same.orders;
      events = same.events;
      payments = h;
      jobs = same.jobs;
      skus = refl;
    }

jobs-Evolves :
    (t : Tables) (rows : List JobRow)
    → KeepsRows job_key SameJob t.jobs rows
    → Evolves t (record t { jobs = rows })
jobs-Evolves t rows h =
    let same = Evolves-refl t in
    record {
      orders = same.orders;
      events = same.events;
      payments = same.payments;
      jobs = h;
      skus = refl;
    }

-- The SET list of CancelJob keeps both keys.
cancelled-key :
    (k : JobKey) (now : Time) (r : JobRow)
    → job_key k (record r { status = SyncStatus.cancelled; locked_at = none; due_at = now })
      ≡ job_key k r
cancelled-key (JobKey.by_id id) now r = refl
cancelled-key (JobKey.by_order id) now r = refl

pub insert_order-Steps : (order_id email : String) → Steps (insert_order order_id email)
unfolding insert_order
insert_order-Steps order_id email = record {
  apply = λ env s. elim (Bool-cases (has_row (has_key order_id) s.tables.orders)) [
    | inl taken ↦ rw taken (Evolves-refl s.tables)
    | inr fresh ↦ rw fresh (
        orders-Evolves s.tables _
          (KeepsRows-insert has_key SameOrder (λ r. (refl, refl, refl)) s.tables.orders _))
  ];
  draws = λ env s. Draws-same s _ (ground arith) (ground arith);
}

add_item-Steps : (id : ℕ) (item : OrderItem) (price : Option Price) → Steps (add_item id item price)
add_item-Steps id item none = record {
  apply = λ env s. Evolves-refl s.tables;
  draws = λ env s. Draws-refl s;
}
add_item-Steps id item (some price) = record {
  apply = λ env s.
      elim (Bool-cases (quantity_fits item.quantity && has_row (has_id id) s.tables.orders)) [
        | inl fits ↦ rw fits (
            let same = Evolves-refl s.tables in
            record {
              orders = same.orders;
              events = same.events;
              payments = same.payments;
              jobs = same.jobs;
              skus = refl;
            })
        | inr bad ↦ rw bad (Evolves-refl s.tables)
      ];
  draws = λ env s. Draws-same s _ (ground arith) (ground arith);
}

pub insert_item-Steps : (id : ℕ) (item : OrderItem) → Steps (insert_item id item)
unfolding insert_item
insert_item-Steps id item = add_item-Steps id item (stored_price item.price)

pub mark_paid-Writes : (id : ℕ) (at : Time) (t : Tables) → Writes t (mark_paid id at t)
unfolding mark_paid
mark_paid-Writes id at t = record {
  evolves =
      orders-Evolves t _
        (KeepsRows-update has_key SameOrder _ _ (λ k r. refl) (λ r. ground arith) t.orders);
  ids = KeepsIds-refl t.jobs;
}

pub mark_cancelled_order-Writes : (id : ℕ) (t : Tables) → Writes t (mark_cancelled_order id t)
unfolding mark_cancelled_order
mark_cancelled_order-Writes id t = record {
  evolves =
      orders-Evolves t _
        (KeepsRows-update has_key SameOrder _ _ (λ k r. refl) (λ r. ground arith) t.orders);
  ids = KeepsIds-refl t.jobs;
}

pub cancel_job-Writes : (id : ℕ) (now : Time) (t : Tables) → Writes t (cancel_job id now t)
unfolding cancel_job
cancel_job-Writes id now t = record {
  evolves = jobs-Evolves t _ (
      KeepsRows-update job_key SameJob _ _ (λ k r. cancelled-key k now r) (λ r. ground arith)
        t.jobs);
  ids = update_rows-KeepsIds _ _ (λ j. refl) t.jobs;
}

pub schedule_sync-Steps : (id : ℕ) (delay : ℤ) → Steps (schedule_sync id delay)
unfolding schedule_sync
schedule_sync-Steps id delay = record {
  apply = λ env s. elim (Bool-cases (has_row (of_order id) s.tables.jobs)) [
    | inl taken ↦ rw taken (Evolves-refl s.tables)
    | inr fresh ↦ rw fresh (elim (Bool-cases (has_row (has_id id) s.tables.orders)) [
      | inl known ↦ rw known (
          jobs-Evolves s.tables _
            (KeepsRows-insert job_key SameJob (λ r. inl refl) s.tables.jobs _))
      | inr unknown ↦ rw unknown (Evolves-refl s.tables)
    ])
  ];
  draws = λ env s. elim (Bool-cases (has_row (of_order id) s.tables.jobs)) [
    | inl taken ↦ rw taken (Draws-same s _ refl (omega arith))
    | inr fresh ↦ rw fresh (elim (Bool-cases (has_row (has_id id) s.tables.orders)) [
      | inl known ↦ rw known (Draws-insert s _ _ refl refl refl)
      | inr unknown ↦ rw unknown (Draws-same s _ refl (omega arith))
    ])
  ];
}

pub insert_event-Steps :
    (id : String) (event_type : EventType) (payload : Payload)
    → Steps (insert_event id event_type payload)
unfolding insert_event
insert_event-Steps id event_type payload = record {
  apply = λ env s. elim (Bool-cases (has_row (is_event event_type id) s.tables.events)) [
    | inl taken ↦ rw taken (Evolves-refl s.tables)
    | inr fresh ↦ rw fresh (
        events-Evolves s.tables _
          (KeepsRows-insert event_key SameEvent (λ r. refl) s.tables.events _))
  ];
  draws = λ env s. Draws-same s _ (ground arith) (ground arith);
}

pub mark_event_processed-Writes :
    (event_type : EventType) (id : String) (now : Time) (t : Tables)
    → Writes t (mark_event_processed event_type id now t)
unfolding mark_event_processed
mark_event_processed-Writes event_type id now t = record {
  evolves =
      events-Evolves t _
        (KeepsRows-update event_key SameEvent _ _ (λ k r. refl) (λ r. ground arith) t.events);
  ids = KeepsIds-refl t.jobs;
}

pub mark_payment_events_processed-Writes :
    (order_id : String) (now : Time) (t : Tables)
    → Writes t (mark_payment_events_processed order_id now t)
unfolding mark_payment_events_processed
mark_payment_events_processed-Writes order_id now t = record {
  evolves =
      events-Evolves t _
        (KeepsRows-update event_key SameEvent _ _ (λ k r. refl) (λ r. ground arith) t.events);
  ids = KeepsIds-refl t.jobs;
}

pub link_payment_order-Steps :
    (reference : String) (id : ℕ) → Steps (link_payment_order reference id)
unfolding link_payment_order
link_payment_order-Steps reference id = record {
  apply = λ env s. elim (Bool-cases (order_fits reference (some id) s.tables)) [
    | inl fits ↦ rw fits (
        payments-Evolves s.tables _ (
          KeepsRows-update has_reference SamePayment _ _ (λ k r. refl) (λ r. ground arith)
            s.tables.payments))
    | inr clash ↦ rw clash (Evolves-refl s.tables)
  ];
  draws = λ env s. Draws-same s _ (ground arith) (ground arith);
}

-- The update of a put leaves the terminal payments out by its own WHERE.
put_payment-Steps :
    (x : PaymentRow) (change : PaymentRow → PaymentRow)
    → ((k : String) (r : PaymentRow) → has_reference k (change r) ≡ has_reference k r)
    → (found : Option PaymentRow) → Steps (put_payment x change found)
put_payment-Steps x change keeps none = record {
  apply = λ env s. elim (Bool-cases (order_fits x.reference_order_id x.order_id s.tables)) [
    | inl fits ↦ rw fits (
        payments-Evolves s.tables _
          (KeepsRows-insert has_reference SamePayment (λ r h. (refl, refl)) s.tables.payments x))
    | inr clash ↦ rw clash (Evolves-refl s.tables)
  ];
  draws = λ env s. Draws-same s _ (ground arith) (ground arith);
}
put_payment-Steps x change keeps (some p) = record {
  apply = λ env s. elim (Bool-cases (is_open_status p.status)) [
    | inr closed ↦ rw closed (Evolves-refl s.tables)
    | inl free ↦
        rw free (elim (Bool-cases (order_fits x.reference_order_id (change p).order_id s.tables)) [
          | inl fits ↦ rw fits (
              payments-Evolves s.tables _ (
                KeepsRows-update has_reference SamePayment _ _ keeps (λ r. ground arith)
                  s.tables.payments))
          | inr clash ↦ rw clash (Evolves-refl s.tables)
        ])
  ];
  draws = λ env s. Draws-same s _ (ground arith) (ground arith);
}

pub upsert_payment-Steps :
    (reference : String) (order_id : Option ℕ) (status : PaymentStatus) (at : Option Time)
    → Steps (upsert_payment reference order_id status at)
unfolding upsert_payment
upsert_payment-Steps reference order_id status at = record {
  apply = λ env s. elim (Bool-cases (status_allowed status)) [
    | inl allowed ↦ rw allowed (
        (put_payment-Steps (proposed s.next_payment reference order_id status at) _ (λ k r. refl)
            (find_row (has_reference reference) s.tables.payments)).apply
          env (record s { next_payment = suc s.next_payment }))
    | inr unknown ↦ rw unknown (Evolves-refl s.tables)
  ];
  draws = λ env s. elim (Bool-cases (status_allowed status)) [
    | inl allowed ↦ rw allowed (
        let drawn = record s { next_payment = suc s.next_payment } in
        Draws-trans s drawn _ (Draws-same s drawn refl (omega arith)) (
          (put_payment-Steps (proposed s.next_payment reference order_id status at) _ (λ k r. refl)
              (find_row (has_reference reference) s.tables.payments)).draws
            env drawn))
    | inr unknown ↦ rw unknown (Draws-same s _ refl (omega arith))
  ];
}

pub cancel_payment-Steps :
    (reference : String) (order_id : Option ℕ) → Steps (cancel_payment reference order_id)
unfolding cancel_payment
cancel_payment-Steps reference order_id = record {
  apply = λ env s.
      (put_payment-Steps (proposed s.next_payment reference order_id PaymentStatus.cancelled none) _
          (λ k r. refl) (find_row (has_reference reference) s.tables.payments)).apply
        env (record s { next_payment = suc s.next_payment });
  draws = λ env s.
      let drawn = record s { next_payment = suc s.next_payment } in
      Draws-trans s drawn _ (Draws-same s drawn refl (omega arith)) (
        (put_payment-Steps (proposed s.next_payment reference order_id PaymentStatus.cancelled none)
            _ (λ k r. refl) (find_row (has_reference reference) s.tables.payments)).draws
          env drawn);
}
