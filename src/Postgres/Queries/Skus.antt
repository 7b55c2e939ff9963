-- ===== src/Postgres/Queries/Skus.antt =====
-- sku_classification_queries.go.
use order_sync.Base.{String, Bool, true, false, ◌&&◌, ◌||◌, List, [], ◌∷◌, text_eq, has_row}
use order_sync.Postgres.Schema.{Category, SkuRow, Tables}

abbrev pub is_hardware_category : Category → Bool
is_hardware_category Category.hardware = true
is_hardware_category Category.digital = false

-- `sku = ANY(skus)`
unfoldable pub among : List String → String → Bool
among [] sku = false
among (s ∷ skus) sku = text_eq sku s || among skus sku

-- HasHardwareSKU.
unfoldable pub has_hardware_sku : List String → Tables → Bool
unfolding among
has_hardware_sku skus t =
    has_row (λ (r : SkuRow). is_hardware_category r.category && among skus r.sku) t.skus
