-- ===== src/Postgres/Queries/Payments.antt =====
-- payment_queries.go.
use order_sync.Base.{
  ℕ, suc, String, Bool, true, false, not, ◌&&◌, Option, none, some, [], ◌∷◌, ◌++◌, text_eq, ◌==◌,
  if◌then◌else◌, find_row, has_row, update_rows,
}
use order_sync.Contracts.{Error, Result, Time, PaymentStatus}
use order_sync.Postgres.Schema.{OrderRow, PaymentRow, Tables}
use order_sync.Postgres.Tx.{Tx}

abbrev pub has_reference : String → PaymentRow → Bool
has_reference reference p = text_eq p.reference_order_id reference

-- `status NOT IN ('COMPLETED', 'CANCELLED')`
unfoldable pub is_open_status : PaymentStatus → Bool
is_open_status PaymentStatus.completed = false
is_open_status PaymentStatus.cancelled = false
is_open_status _ = true

-- The check of the column `status`.
unfoldable pub status_allowed : PaymentStatus → Bool
status_allowed (PaymentStatus.other _) = false
status_allowed _ = true

abbrev pub coalesce : Option ℕ → Option ℕ → Option ℕ
coalesce (some a) _ = some a
coalesce none b = b

-- `order_id BIGINT UNIQUE REFERENCES orders(id)` for the payment with this reference: the order is
-- there, and no payment with another reference has it.
unfoldable pub order_fits : String → Option ℕ → Tables → Bool
order_fits reference none t = true
order_fits reference (some o) t =
    has_row (λ (r : OrderRow). r.id == o) t.orders
    && not (
        has_row
          (λ (p : PaymentRow).
            not (has_reference reference p) && elim p.order_id [ none ↦ false | some k ↦ k == o ])
          t.payments)

-- The row that an INSERT proposes: EXCLUDED.
abbrev pub proposed : ℕ → String → Option ℕ → PaymentStatus → Option Time → PaymentRow
proposed id reference order_id status paid_at = record {
  id = id;
  reference_order_id = reference;
  order_id = order_id;
  status = status;
  paid_at = paid_at;
}

-- CASE WHEN payments.status = 'COMPLETED' THEN payments.status ELSE EXCLUDED.status END
abbrev upserted_status : PaymentStatus → PaymentStatus → PaymentStatus
upserted_status PaymentStatus.completed _ = PaymentStatus.completed
upserted_status _ status = status

-- The CASE of `paid_at`.
abbrev upserted_paid_at : PaymentStatus → PaymentStatus → Option Time → Option Time → Option Time
upserted_paid_at PaymentStatus.completed _ old new = old
upserted_paid_at _ PaymentStatus.completed old new = new
upserted_paid_at _ _ old new = old

-- The SET list of UpsertPayment and the one of CancelPayment.
abbrev pub upserted : PaymentRow → PaymentRow → PaymentRow
upserted x p = record p {
  order_id = coalesce p.order_id x.order_id;
  status = upserted_status p.status x.status;
  paid_at = upserted_paid_at p.status x.status p.paid_at x.paid_at;
}

abbrev pub cancelled_with : PaymentRow → PaymentRow → PaymentRow
cancelled_with x p = record p {
  order_id = coalesce p.order_id x.order_id;
  status = PaymentStatus.cancelled;
}

-- INSERT ... ON CONFLICT (reference_order_id) DO UPDATE SET ... WHERE payments.status NOT IN
-- ('COMPLETED', 'CANCELLED') RETURNING ..., for the row `x` and the update `change`.
abbrev pub put_payment :
    PaymentRow → (PaymentRow → PaymentRow) → Option PaymentRow → Tx (Option PaymentRow)
put_payment x change none env s =
    if order_fits x.reference_order_id x.order_id s.tables
    then (
      Result.ok (some x),
      record s { tables = record (s.tables) { payments = s.tables.payments ++ x ∷ [] } },
    )
    else (Result.err Error.database, s)
put_payment x change (some p) env s =
    if is_open_status p.status
    then (if order_fits x.reference_order_id (change p).order_id s.tables
        then (
          Result.ok (some (change p)),
          record s {
            tables = record (s.tables) {
              payments =
                  update_rows (λ r. has_reference x.reference_order_id r && is_open_status r.status)
                    change s.tables.payments;
            };
          },
        )
        else (Result.err Error.database, s))
    else (Result.ok none, s)

-- UpsertPayment.
unfoldable pub upsert_payment :
    String → Option ℕ → PaymentStatus → Option Time → Tx (Option PaymentRow)
upsert_payment reference order_id status paid_at env s =
    let x = proposed s.next_payment reference order_id status paid_at in
    let drawn = record s { next_payment = suc s.next_payment } in
    if status_allowed status
    then put_payment x (upserted x) (find_row (has_reference reference) s.tables.payments) env drawn
    else (Result.err Error.database, drawn)

-- FindPayment.
unfoldable pub find_payment : String → Tables → Option PaymentRow
find_payment reference t = find_row (has_reference reference) t.payments

-- LinkPaymentOrder.
unfoldable pub link_payment_order : String → ℕ → Tx (Unit {0})
link_payment_order reference id env s =
    if order_fits reference (some id) s.tables
    then (
      Result.ok tt,
      record s {
        tables = record (s.tables) {
          payments =
              update_rows
                (λ p. has_reference reference p && elim p.order_id [ none ↦ true | some _ ↦ false ])
                (λ p. record p { order_id = some id }) s.tables.payments;
        };
      },
    )
    else (Result.err Error.database, s)

-- CancelPayment.
unfoldable pub cancel_payment : String → Option ℕ → Tx (Option PaymentRow)
cancel_payment reference order_id env s =
    let x = proposed s.next_payment reference order_id PaymentStatus.cancelled none in
    let drawn = record s { next_payment = suc s.next_payment } in
    put_payment x (cancelled_with x) (find_row (has_reference reference) s.tables.payments) env
      drawn
