-- ===== src/Postgres/Repositories/Payments.antt =====
-- payment_repository.go.
use order_sync.Base.{ℕ, String, Option, none, some}
use order_sync.Contracts.{Error, Time, PaymentStatus, PaymentState}
use order_sync.Postgres.Schema.{PaymentRow}
use order_sync.Postgres.Tx.{Tx, pure, throw, ◌>>=◌, wrapping, statement, reads}
use order_sync.Postgres.Queries.Payments.{
  upsert_payment, find_payment, link_payment_order, cancel_payment,
}

-- scanState.
abbrev pub scan_state : PaymentRow → PaymentState
scan_state p = record {
  id = p.id;
  reference_order_id = p.reference_order_id;
  order_id = p.order_id;
  status = p.status;
  paid_at = p.paid_at;
}

-- pgx.ErrNoRows after a write means that the payment is terminal.
abbrev pub state_or_finalized : Option PaymentRow → Tx PaymentState
state_or_finalized none = throw Error.payment_finalized
state_or_finalized (some p) = pure (scan_state p)

unfoldable pub upsert : String → PaymentStatus → Option ℕ → Option Time → Tx PaymentState
upsert reference status order_id paid_at = do
  row ← wrapping "upsert payment %q" (statement (upsert_payment reference order_id status paid_at))
  state_or_finalized row

unfoldable pub cancel : String → Option ℕ → Tx PaymentState
cancel reference order_id = do
  row ← wrapping "cancel payment %q" (statement (cancel_payment reference order_id))
  state_or_finalized row

abbrev pub scanned : Option PaymentRow → Option PaymentState
scanned none = none
scanned (some p) = some (scan_state p)

unfoldable pub find : String → Tx (Option PaymentState)
find reference = do
  row ← wrapping "find payment %q" (statement (reads (λ env. find_payment reference)))
  pure (scanned row)

unfoldable pub link_order : String → ℕ → Tx (Unit {0})
link_order reference id =
    wrapping "link payment %q to order %d" (statement (link_payment_order reference id))
