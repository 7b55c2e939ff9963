-- ===== src/Tests/Delay.antt =====
-- A lock that the sender overrides with `isHardware: false`.
use mathlib.Core.List.{Memᴰ}
use order_sync.Base.{true, false, some, [], ◌∷◌, ◌≡◌}
use order_sync.Base.Int.{pos}
use order_sync.Contracts.{OrderItem}
use order_sync.Postgres.Tx.{◌>>◌}
use order_sync.Postgres.Repositories.Orders.{has_hardware, mark_paid_at, schedule}
use order_sync.Orders.{item_skus, mark_paid_and_schedule}
use order_sync.Orders.Delay.{AllFalse, overrides_decide}
use order_sync.Tests.Data.{cfg, env_at, empty_db, lock_item}

abbrev digital_lock : OrderItem
digital_lock = record lock_item { is_hardware = some false }

overrides_decide_example :
    (AllFalse (digital_lock ∷ [])
      → mark_paid_and_schedule cfg 1 (digital_lock ∷ []) 77 (env_at 1000) empty_db
        ≡ (mark_paid_at 1 77 >> schedule 1 (pos 0)) (env_at 1000) empty_db)
    × ((item : OrderItem)
        → Memᴰ item (digital_lock ∷ [])
        → item.is_hardware ≡ some true
        → mark_paid_and_schedule cfg 1 (digital_lock ∷ []) 77 (env_at 1000) empty_db
          ≡ (has_hardware (item_skus (digital_lock ∷ []))
                >> (mark_paid_at 1 77 >> schedule 1 (pos 30)))
              (env_at 1000)
              empty_db)
overrides_decide_example = overrides_decide cfg 1 (digital_lock ∷ []) 77 (env_at 1000) empty_db
