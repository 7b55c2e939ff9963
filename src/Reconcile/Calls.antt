-- ===== src/Reconcile/Calls.antt =====
-- What the calls of the two services give where every statement is sent.
use order_sync.Base.{
  ℕ, suc, ◌+◌, String, true, Option, none, some, List, [], ◌∷◌, ◌++◌, ◌≡◌, refl, ap, ◌∙◌, arith,
  length, find_row, has_row, has_row-none, found_any, find_row-insert,
}
use mathlib.Core.List.{append-nil, append_assoc}
use order_sync.Contracts.{Result, Time, EventType, PaymentStatus, OrderItem, Price, stored_price}
use order_sync.Postgres.Queries.Events.{is_event, insert_event}
use order_sync.Postgres.Queries.Orders.{has_key, has_id, insert_order, insert_item, quantity_fits}
use order_sync.Payment.Service as Payment
use order_sync.Postgres.Queries.Orders.{find_order_id, row_id}
use order_sync.Postgres.Queries.Payments.{
  has_reference, find_payment, upsert_payment, order_fits, proposed, status_allowed,
}
use order_sync.Postgres.Repositories.Orders as OrderRepository
use order_sync.Postgres.Repositories.Payments as PaymentRepository
use order_sync.Postgres.Repositories.Events.{record_event}
use order_sync.Postgres.Repositories.Orders.{create, add_items}
use order_sync.Postgres.Schema.{OrderRow, ItemRow, PaymentRow, Payload, Db, Env}
use order_sync.Postgres.Tx.{Tx, pure, ◌>>=◌, continue_with, wrap_result, wrapping, statement, reads}
use order_sync.Reconcile.{sent, Fits, item_rows, new_order}

-- The call succeeds and leaves this database, but for the count of its statements.
abbrev pub Leaves : {A : Type 0} → Tx A → Env → Db → Db → Type 0
Leaves {A} m env s s' = (a : A) × (n : ℕ) × (m env s ≡ (Result.ok a, record s' { calls = n }))

pub stored-has_row :
    (rows : List OrderRow) (r : OrderRow) → has_row (has_id r.id) (rows ++ r ∷ []) ≡ true
unfolding has_row
stored-has_row rows r = ap found_any (find_row-insert (has_id r.id) rows r) ∙ ground arith

pub bind-ok :
    {A B : Type 0} (m : Tx A) (f : A → Tx B) (env : Env) (s : Db) {a : A} {s' : Db}
    → m env s ≡ (Result.ok a, s')
    → (m >>= f) env s ≡ f a env s'
unfolding ◌>>=◌
bind-ok m f env s h = ap (λ x. continue_with x.0 f env x.1) h

pub wrapping-ok :
    {A : Type 0} (format : String) (m : Tx A) (env : Env) (s : Db) {a : A} {s' : Db}
    → m env s ≡ (Result.ok a, s')
    → wrapping format m env s ≡ (Result.ok a, s')
unfolding wrapping
wrapping-ok format m env s h = ap (λ x. (wrap_result format x.0, x.1)) h

module _ (env : Env) (now : Time) where
  pub record_event-new :
      (format id : String) (event_type : EventType) (payload : Payload) (s : Db)
      → find_row (is_event event_type id) s.tables.events ≡ none
      → wrapping format (record_event id event_type payload) (sent env now) s ≡ (
        Result.ok true,
        record s {
          calls = suc s.calls;
          tables = record (s.tables) {
            events =
                s.tables.events
                ++ (record {
                  event_id = id;
                  event_type = event_type;
                  payload = payload;
                  processed_at = none;
                })
                  ∷ [];
          };
        },
      )
  unfolding wrapping record_event statement insert_event
  record_event-new format id event_type payload s h =
      rw (has_row-none (is_event event_type id) s.tables.events h) refl

  pub create-new :
      (format order_id email : String) (s : Db)
      → find_row (has_key order_id) s.tables.orders ≡ none
      → wrapping format (create order_id email) (sent env now) s ≡ (
        Result.ok s.next_order,
        record s {
          calls = suc s.calls;
          next_order = suc s.next_order;
          tables = record (s.tables) {
            orders = s.tables.orders ++ new_order s.next_order order_id email ∷ [];
          };
        },
      )
  unfolding wrapping create statement insert_order ◌>>=◌ pure
  create-new format order_id email s h = rw (has_row-none (has_key order_id) s.tables.orders h) refl

  -- One item.
  insert_item-new :
      (id : ℕ) (item : OrderItem) (s : Db)
      → has_row (has_id id) s.tables.orders ≡ true
      → quantity_fits item.quantity ≡ true
      → (price : Price) → stored_price item.price ≡ some price
      → insert_item id item (sent env now) s ≡ (
        Result.ok tt,
        record s {
          tables = record (s.tables) {
            items =
                s.tables.items
                ++ (record { order_id = id; item = record item { price = price } }) ∷ [];
          };
        },
      )
  unfolding insert_item
  insert_item-new id item s known fits price stored = rw (stored, fits, known) refl

  pub add_items-new :
      (id : ℕ) (items : List OrderItem) (s : Db)
      → Fits items
      → has_row (has_id id) s.tables.orders ≡ true
      → add_items id items (sent env now) s ≡ (
        Result.ok tt,
        record s {
          calls = s.calls + length items;
          tables = record (s.tables) { items = s.tables.items ++ item_rows id items };
        },
      )
  unfolding add_items item_rows pure statement
  add_items-new id [] s fits known = ground (arith, append-nil s.tables.items)
  add_items-new id (item ∷ items) s (quantity, (price, stored), fits) known =
      let called = record s { calls = suc s.calls } in
      let first = insert_item-new id item called known quantity price stored in
      let row : ItemRow = record { order_id = id; item = record item { price = price } } in
      let s' : Db = record called {
        tables = record (s.tables) { items = s.tables.items ++ row ∷ [] };
      } in
      bind-ok _ (λ _. add_items id items) (sent env now) s
        (wrapping-ok "insert item %q for order %d" (statement (insert_item id item)) (sent env now)
          s first)
      ∙ add_items-new id items s' fits known
      ∙ rw stored (ground (arith, append_assoc s.tables.items (row ∷ []) (item_rows id items)))

  -- The two lookups, and the reading of an order's items.
  pub find_payment-sent :
      (format reference : String) (u : Db) (found : Option PaymentRow)
      → find_row (has_reference reference) u.tables.payments ≡ found
      → wrapping format (PaymentRepository.find reference) (sent env now) u
        ≡ (Result.ok (PaymentRepository.scanned found), record u { calls = suc u.calls })
  unfolding PaymentRepository.find find_payment wrapping statement reads pure ◌>>=◌
  find_payment-sent format reference u found h = rw h refl

  pub find_order_id-sent :
      (order_id : String) (u : Db) (found : Option OrderRow)
      → find_row (has_key order_id) u.tables.orders ≡ found
      → Payment.find_order_id order_id (sent env now) u ≡ (
        Result.ok (Payment.order_id_of (OrderRepository.id_or_zero (row_id found))),
        record u { calls = suc u.calls },
      )
  unfolding Payment.find_order_id OrderRepository.find_id find_order_id wrapping statement reads
      pure ◌>>=◌
  find_order_id-sent order_id u found h = rw h refl

  -- The row of a completed payment, inserted.
  pub upsert-new :
      (format reference : String) (order_id : Option ℕ) (at : Time) (u : Db)
      → find_row (has_reference reference) u.tables.payments ≡ none
      → order_fits reference order_id u.tables ≡ true
      → let x = proposed u.next_payment reference order_id PaymentStatus.completed (some at) in
        wrapping format
          (PaymentRepository.upsert reference PaymentStatus.completed order_id (some at))
          (sent env now)
          u
        ≡ (
          Result.ok (PaymentRepository.scan_state x),
          record u {
            calls = suc u.calls;
            next_payment = suc u.next_payment;
            tables = record (u.tables) { payments = u.tables.payments ++ x ∷ [] };
          },
        )
  unfolding PaymentRepository.upsert upsert_payment status_allowed wrapping statement pure ◌>>=◌
  upsert-new format reference order_id at u missing fits = rw missing (rw fits refl)
