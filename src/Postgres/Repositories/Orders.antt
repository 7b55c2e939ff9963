-- ===== src/Postgres/Repositories/Orders.antt =====
-- order_repository.go and sku_classifier_repository.go.
use order_sync.Base.{ℕ, String, Bool, false, Option, none, some, List, [], ◌∷◌}
use order_sync.Base.Int.{ℤ}
use order_sync.Contracts.{Error, Time, OrderItem, StoredOrder, OrderStatus}
use order_sync.Postgres.Schema.{OrderRow}
use order_sync.Postgres.Tx.{Tx, pure, throw, ◌>>=◌, ◌>>◌, wrapping, statement, reads, writes}
use order_sync.Postgres.Queries.Orders.{
  insert_order, insert_item, find_order_id, find_order, find_status, find_items, mark_paid,
  schedule_sync, cancel_order, mark_cancelled_order, cancel_job,
}
use order_sync.Postgres.Queries.Skus.{has_hardware_sku}

-- pgx.ErrNoRows gives the id 0.
abbrev pub id_or_zero : Option ℕ → ℕ
id_or_zero none = 0
id_or_zero (some id) = id

unfoldable pub create : String → String → Tx ℕ
create order_id customer_email = do
  id ← wrapping "create order %q" (statement (insert_order order_id customer_email))
  pure (id_or_zero id)

unfoldable pub find_id : String → Tx ℕ
find_id order_id = do
  id ← wrapping "find order %q" (statement (reads (λ env. find_order_id order_id)))
  pure (id_or_zero id)

unfoldable pub list_items : ℕ → Tx (List OrderItem)
list_items id = wrapping "list items for order %d" (statement (reads (λ env. find_items id)))

abbrev pub with_items : Option OrderRow → Tx (Option StoredOrder)
with_items none = pure none
with_items (some r) = do
  items ← list_items r.id
  pure (some (record { id = r.id; customer_email = r.customer_email; items = items }))

unfoldable pub find : String → Tx (Option StoredOrder)
unfolding list_items
find order_id = do
  row ← wrapping "find order %q" (statement (reads (λ env. find_order order_id)))
  with_items row

unfoldable pub find_status_of : String → Tx (Option OrderStatus)
find_status_of order_id =
    wrapping "find status for order %q" (statement (reads (λ env. find_status order_id)))

unfoldable pub mark_paid_at : ℕ → Time → Tx (Unit {0})
mark_paid_at id paid_at =
    wrapping "mark order %d paid" (statement (writes (λ env. mark_paid id paid_at)))

unfoldable pub add_items : ℕ → List OrderItem → Tx (Unit {0})
add_items id [] = pure tt
add_items id (item ∷ items) = do
  wrapping "insert item %q for order %d" (statement (insert_item id item))
  add_items id items

unfoldable pub schedule : ℕ → ℤ → Tx (Unit {0})
schedule id delay = wrapping "schedule SAP sync for order %d" (statement (schedule_sync id delay))

abbrev pub cancel_found : ℕ → Option ℕ → Tx (Unit {0})
cancel_found id none = throw Error.order_cannot_cancel
cancel_found id (some _) = do
  wrapping "cancel order %d" (statement (writes (λ env. mark_cancelled_order id)))
  wrapping "cancel SAP job for order %d" (statement (writes (λ env. cancel_job id env.now)))

unfoldable pub cancel : ℕ → Tx (Unit {0})
cancel id = do
  found ← wrapping "cancel order %d" (statement (reads (λ env. cancel_order id)))
  cancel_found id found

-- SKUClassifier.HasHardware: no statement for an empty list.
unfoldable pub has_hardware : List String → Tx Bool
has_hardware [] = pure false
has_hardware (sku ∷ skus) =
    wrapping "classify SKUs" (statement (reads (λ env. has_hardware_sku (sku ∷ skus))))
