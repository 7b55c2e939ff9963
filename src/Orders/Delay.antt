-- ===== src/Orders/Delay.antt =====
-- When the job of a paid order is due: MarkPaidAndSchedule of internal/orders/service.go.
use mathlib.Core.List.{Memᴰ}
use order_sync.Base.{ℕ, Bool, true, false, some, List, [], ◌∷◌, ◌||◌, ◌≡◌, refl, subst, arith}
use order_sync.Base.Int.{pos}
use order_sync.Config.{Config}
use order_sync.Contracts.{Result, Time, OrderItem}
use order_sync.Orders.{item_skus, any_override, sync_delay, mark_paid_and_schedule}
use order_sync.Postgres.Schema.{Env, Db}
use order_sync.Postgres.Tx.{pure, continue_with, ◌>>=◌, ◌>>◌}
use order_sync.Postgres.Repositories.Orders.{has_hardware, mark_paid_at, schedule}

-- Each item has the override `isHardware: false`.
abbrev pub AllFalse : List OrderItem → Type 0
AllFalse items = (item : OrderItem) → Memᴰ item items → item.is_hardware ≡ some false

no_skus :
    (items : List OrderItem)
    → AllFalse items
    → (item_skus items ≡ []) × (any_override items ≡ false)
unfolding item_skus any_override
no_skus [] h = (refl, refl)
no_skus (item ∷ items) h =
    let (skus, override) = no_skus items (λ i m. h i (Memᴰ.tail m)) in
    (rw (h item (Memᴰ.head refl)) skus, rw (h item (Memᴰ.head refl)) override)

some_override :
    (items : List OrderItem) (item : OrderItem)
    → Memᴰ item items
    → item.is_hardware ≡ some true
    → any_override items ≡ true
unfolding any_override
some_override [] item m h = elim m [ ]
some_override (i ∷ items) item (Memᴰ.head e) h =
    rw (subst (λ x. x.is_hardware ≡ some true) e h) refl
some_override (i ∷ items) item (Memᴰ.tail m) h = ground (arith, some_override items item m h)

-- The overrides decide over the catalog. An order whose items are all overridden with `false` is marked
-- paid and its job is due at once, and the catalog is not asked, whatever it says of their SKUs. An order
-- with an item overridden with `true` gets the delay for hardware, whatever the catalog answers.
pub overrides_decide :
    (cfg : Config) (id : ℕ) (items : List OrderItem) (paid_at : Time) (env : Env) (s : Db)
    → (AllFalse items
        → mark_paid_and_schedule cfg id items paid_at env s
          ≡ (mark_paid_at id paid_at >> schedule id (pos 0)) env s)
      × ((item : OrderItem)
          → Memᴰ item items
          → item.is_hardware ≡ some true
          → mark_paid_and_schedule cfg id items paid_at env s
            ≡ (has_hardware (item_skus items)
                  >> (mark_paid_at id paid_at >> schedule id cfg.hardware_sync_delay_seconds))
                env s)
unfolding mark_paid_and_schedule has_hardware pure ◌>>=◌ sync_delay
overrides_decide cfg id items paid_at env s = (digital, hardware)
  where
    digital :
        AllFalse items
        → mark_paid_and_schedule cfg id items paid_at env s
          ≡ (mark_paid_at id paid_at >> schedule id (pos 0)) env s
    digital h = let (skus, override) = no_skus items h in rw (skus, override) refl

    same_delay :
        (r : Result Bool × Db)
        → continue_with r.0
            (λ c. mark_paid_at id paid_at >> schedule id (sync_delay cfg (c || true)))
            env
            r.1
          ≡ continue_with r.0
              (λ c. mark_paid_at id paid_at >> schedule id cfg.hardware_sync_delay_seconds)
              env
              r.1
    same_delay (Result.ok true, s') = refl
    same_delay (Result.ok false, s') = refl
    same_delay (Result.err e, s') = refl

    hardware :
        (item : OrderItem)
        → Memᴰ item items
        → item.is_hardware ≡ some true
        → mark_paid_and_schedule cfg id items paid_at env s
          ≡ (has_hardware (item_skus items)
                >> (mark_paid_at id paid_at >> schedule id cfg.hardware_sync_delay_seconds))
              env s
    hardware item m h =
        rw (some_override items item m h) (same_delay (has_hardware (item_skus items) env s))
