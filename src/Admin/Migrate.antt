-- ===== src/Admin/Migrate.antt =====
-- The command `migrate` of cmd/order-sync-admin/main.go: Migrate and then verifySchema.
use order_sync.Base.{ℕ, suc, String, Bool, true, false, some, ◌≡◌, refl, ap, text_eq, find_row}
use order_sync.Contracts.{Result}
use order_sync.Postgres.Migration.{is_sku, apply_migration, migrate}
use order_sync.Postgres.Queries.Skus.{among}
use order_sync.Postgres.Schema.{SkuRow, Db, Env}
use order_sync.Postgres.Tx.{pure, ◌>>=◌, ◌>>◌, wrapping, statement, reads, writes}
use order_sync.Admin.{required_tables, verify_schema}
use order_sync.Admin.Seeding.{AreDistinct, seed-keeps, seed-counts, seed_idem}

-- `order-sync-admin migrate` where the statements are sent and the required tables are there: it succeeds, that
-- is, verifySchema finds the three seeded SKUs; every row of every table is kept, a SKU keeps its category;
-- and to migrate once more changes nothing. The SKUs of the catalog are distinct.
pub migrate-verify_schema :
    (to_regclass : String → Result Bool) (env : Env) (s : Db)
    → ((table : String) → among required_tables table ≡ true → to_regclass table ≡ Result.ok true)
    → ((n : ℕ) → env.fault n ≡ false)
    → AreDistinct s.tables.skus
    → let (r, s') = (migrate >> verify_schema to_regclass) env s in
      (r ≡ Result.ok tt)
      × (s'.tables ≡ record (s.tables) { skus = s'.tables.skus })
      × ((sku : String) (row : SkuRow)
          → find_row (is_sku sku) s.tables.skus ≡ some row
          → find_row (is_sku sku) s'.tables.skus ≡ some row)
      × ((migrate env s').1.tables ≡ s'.tables)
unfolding migrate verify_schema apply_migration wrapping statement reads writes pure ◌>>=◌ among
    text_eq
migrate-verify_schema to_regclass env s there sent distinct =
    rw
      (
        there "orders" refl,
        there "order_items" refl,
        there "sku_classifications" refl,
        there "webhook_events" refl,
        there "payments" refl,
        there "sync_jobs" refl,
        sent s.calls,
        sent (suc s.calls),
        seed-counts s.tables.skus distinct,
        sent (suc (suc s.calls)),
      )
      (
        refl,
        refl,
        λ sku row found. seed-keeps s.tables.skus sku row found,
        ap (λ skus. record (s.tables) { skus = skus }) (seed_idem s.tables.skus),
      )
