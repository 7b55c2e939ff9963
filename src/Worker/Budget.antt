-- ===== src/Worker/Budget.antt =====
-- How many more claims the stored jobs can bring, while every update is sent.
use mathlib.Core.List.{Memᴰ}
use order_sync.Base.{
  ℕ, suc, ◌+◌, ◌*◌, ◌-◌, ◌≤◌, Bool, true, false, none, List, [], ◌∷◌, ◌≡◌, ap, sym, subst, arith,
  length, find_row, update_rows, update_rows-none, ◌==◌, if◌then◌else◌,
}
use order_sync.Config.{Config}
use order_sync.Contracts.{SyncStatus}
use order_sync.Postgres.Schema.{JobRow}
use order_sync.Postgres.Ids.{Distinct}
use order_sync.Postgres.Queries.Jobs.{has_job_id}
use order_sync.Worker.Retry.{max_total_attempts}

abbrev pub is_live : SyncStatus → Bool
is_live SyncStatus.pending = true
is_live SyncStatus.waiting = true
is_live SyncStatus.processing = true
is_live _ = false

-- The claims that a job can still bring.
unfoldable pub weight : Config → JobRow → ℕ
weight cfg j = if is_live j.status then suc (max_total_attempts cfg - j.attempts) else 0

unfoldable pub budget : Config → List JobRow → ℕ
budget cfg [] = 0
budget cfg (j ∷ jobs) = weight cfg j + budget cfg jobs

pub budget-le :
    (cfg : Config) (jobs : List JobRow)
    → budget cfg jobs ≤ length jobs * suc (max_total_attempts cfg)
unfolding budget weight
budget-le cfg [] = omega arith
budget-le cfg (j ∷ jobs) = grind (arith, budget-le cfg jobs)

mem-found :
    (id : ℕ) (j : JobRow) (jobs : List JobRow)
    → Memᴰ j jobs
    → find_row (has_job_id id) jobs ≡ none
    → (j.id == id) ≡ false
unfolding find_row
mem-found id j [] m h = elim m [ ]
mem-found id j (k ∷ jobs) (Memᴰ.head e) h = ground (arith, ap JobRow.id e)
mem-found id j (k ∷ jobs) (Memᴰ.tail m) h = mem-found id j jobs m (ground arith)

budget-head :
    (cfg : Config) (f : JobRow → JobRow) (k : JobRow) (jobs : List JobRow)
    → find_row (has_job_id k.id) jobs ≡ none
    → budget cfg (update_rows (has_job_id k.id) f (k ∷ jobs)) + weight cfg k
      ≡ budget cfg (k ∷ jobs) + weight cfg (f k)
unfolding budget update_rows
budget-head cfg f k jobs fresh = ground (arith, update_rows-none (has_job_id k.id) f jobs fresh)

-- The budget after one row is changed.
pub budget-update :
    (cfg : Config) (f : JobRow → JobRow) (j : JobRow) (jobs : List JobRow)
    → Distinct jobs
    → Memᴰ j jobs
    → budget cfg (update_rows (has_job_id j.id) f jobs) + weight cfg j
      ≡ budget cfg jobs + weight cfg (f j)
unfolding budget update_rows
budget-update cfg f j [] d m = elim m [ ]
budget-update cfg f j (k ∷ jobs) (fresh, d) (Memᴰ.head e) =
    subst
      (λ i.
        budget cfg (update_rows (has_job_id i.id) f (k ∷ jobs)) + weight cfg i
        ≡ budget cfg (k ∷ jobs) + weight cfg (f i))
      (sym e) (budget-head cfg f k jobs fresh)
budget-update cfg f j (k ∷ jobs) (fresh, d) (Memᴰ.tail m) =
    ground (arith, mem-found k.id j jobs m fresh, budget-update cfg f j jobs d m)
