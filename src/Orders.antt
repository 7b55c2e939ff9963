-- ===== src/Orders.antt =====
-- internal/orders/service.go.
pub mod Delay
use order_sync.Base.{ℕ, String, Bool, false, ◌||◌, Option, none, some, List, [], ◌∷◌, if◌then◌else◌}
use order_sync.Base.Int.{ℤ, pos}
use order_sync.Config.{Config}
use order_sync.Contracts.{Time, OrderItem, OrderStatus}
use order_sync.Postgres.Tx.{Tx, ◌>>=◌, ◌>>◌}
use order_sync.Postgres.Repositories.Orders.{has_hardware, mark_paid_at, schedule, find_status_of}

-- Service.GetOrderStatus.
unfoldable pub get_order_status : String → Tx (Option OrderStatus)
unfolding find_status_of
get_order_status order_id = find_status_of order_id

abbrev add_sku : OrderItem → Option Bool → List String → List String
add_sku item none skus = item.sku ∷ skus
add_sku item (some _) skus = skus

-- itemSKUs: the SKUs of the items with no override.
unfoldable pub item_skus : List OrderItem → List String
item_skus [] = []
item_skus (item ∷ items) = add_sku item item.is_hardware (item_skus items)

abbrev pub is_override : Option Bool → Bool
is_override (some b) = b
is_override none = false

-- The loop over the items: an item with the override `true`.
unfoldable pub any_override : List OrderItem → Bool
any_override [] = false
any_override (item ∷ items) = is_override item.is_hardware || any_override items

-- The delay, in seconds.
unfoldable pub sync_delay : Config → Bool → ℤ
sync_delay cfg hardware = if hardware then cfg.hardware_sync_delay_seconds else pos 0

-- `HasHardware` sends no statement for an empty list and answers false, as the guard here does.
unfoldable pub mark_paid_and_schedule : Config → ℕ → List OrderItem → Time → Tx (Unit {0})
unfolding item_skus any_override sync_delay
mark_paid_and_schedule cfg id items paid_at = do
  classified ← has_hardware (item_skus items)
  mark_paid_at id paid_at
  schedule id (sync_delay cfg (classified || any_override items))
