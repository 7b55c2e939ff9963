-- ===== src/Postgres/Migration.antt =====
-- internal/db/migrate.go, with what migrations/001_initial.sql does to the rows that are there: CREATE TABLE IF
-- NOT EXISTS keeps them, and one INSERT seeds the catalog.
use order_sync.Base.{String, Bool, List, [], ◌∷◌, ◌++◌, text_eq, has_row, if◌then◌else◌}
use order_sync.Postgres.Schema.{Category, SkuRow, Tables}
use order_sync.Postgres.Tx.{Tx, wrapping, statement, writes}

abbrev pub is_sku : String → SkuRow → Bool
is_sku sku r = text_eq r.sku sku

-- One row of the INSERT, with ON CONFLICT (sku) DO NOTHING.
unfoldable pub seed_sku : String → Category → List SkuRow → List SkuRow
seed_sku sku category rows =
    if has_row (is_sku sku) rows
    then rows
    else rows ++ (record { sku = sku; category = category }) ∷ []

-- The INSERT.
unfoldable pub seed : List SkuRow → List SkuRow
unfolding seed_sku
seed rows =
    seed_sku "NUKI-SMART-HOSTING" Category.digital
      (seed_sku "NUKI-BRIDGE" Category.hardware (seed_sku "NUKI-SL3" Category.hardware rows))

unfoldable pub apply_migration : Tables → Tables
unfolding seed
apply_migration t = record t { skus = seed t.skus }

-- migrator.Migrate.
unfoldable pub migrate : Tx (Unit {0})
unfolding apply_migration
migrate = wrapping "execute schema migration" (statement (writes (λ env. apply_migration)))
