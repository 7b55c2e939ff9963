-- ===== src/Reconcile.antt =====
-- A shop order and its completed payment, which arrive in either order. Orders, payments and jobs end up the
-- same; both services take part, and reconcilePayment of internal/shop/service.go where the payment is first.
pub mod Calls
pub mod First
pub mod Paid
pub mod PaymentSecond
pub mod ShopSecond
pub mod Steps
pub mod Order
use order_sync.Base.{
  ℕ, ◌≤◌, ◌<◌, String, Bool, true, false, Option, none, some, List, [], ◌∷◌, ◌++◌, map, ◌≡◌, ◌||◌,
  find_row,
}
use order_sync.Base.Int.{ℤ}
use order_sync.Config.{Config}
use order_sync.Contracts.{
  Time, EventType, PaymentStatus, OrderState, OrderItem, Price, stored_price,
}
use order_sync.Orders.{item_skus, any_override, sync_delay}
use order_sync.Postgres.Queries.Orders.{
  has_key, has_id, of_order, item_of, pays_for, quantity_fits, new_job, due_after,
}
use order_sync.Postgres.Queries.Payments.{has_reference}
use order_sync.Postgres.Queries.Skus.{has_hardware_sku}
use order_sync.Postgres.Schema.{OrderRow, ItemRow, PaymentRow, SkuRow, Tables, Db, Env}

-- Every statement is sent, at an instant of the database.
abbrev pub sent : Env → Time → Env
sent env now = record env { now = now; fault = λ n. false }

-- The items fit their columns; the price is stored with two decimals.
abbrev pub Fits : List OrderItem → Type 0
Fits [] = Unit {0}
Fits (item ∷ items) =
    (quantity_fits item.quantity ≡ true)
    × ((price : Price) × (stored_price item.price ≡ some price))
    × Fits items

-- The next order id is positive and no row refers to it, as BIGSERIAL and the foreign keys see to.
pub record IsFresh (s : Db) : Type 0 where
  pub positive : 0 < s.next_order
  pub orders : find_row (has_id s.next_order) s.tables.orders ≡ none
  pub items : find_row (item_of s.next_order) s.tables.items ≡ none
  pub payments : find_row (pays_for s.next_order) s.tables.payments ≡ none
  pub jobs : find_row (of_order s.next_order) s.tables.jobs ≡ none

abbrev price_or : Price → Option Price → Price
price_or price none = price
price_or price (some stored) = stored

abbrev pub stored_as : OrderItem → Option Price → OrderItem
stored_as item price = record item { price = price_or item.price price }

-- The rows of an order's items.
unfoldable pub item_rows : ℕ → List OrderItem → List ItemRow
item_rows id [] = []
item_rows id (item ∷ items) =
    (record { order_id = id; item = stored_as item (stored_price item.price) }) ∷ item_rows id items

-- The row that InsertOrder stores.
abbrev pub new_order : ℕ → String → String → OrderRow
new_order id order_id email = record {
  id = id;
  order_id = order_id;
  customer_email = email;
  payment_status = OrderState.pending;
  sap_id = none;
  paid_at = none;
}
