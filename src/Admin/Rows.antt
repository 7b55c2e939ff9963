-- ===== src/Admin/Rows.antt =====
-- The rows of the jobs that the UPDATE of replayDeadJob finds, and what it makes of them.
use mathlib.Core.List.{Memᴰ}
use mathlib.Core.Option
use order_sync.Base.{
  ℕ, Bool, true, false, Option, none, some, List, [], ◌∷◌, ◌≡◌, ◌≢◌, refl, sym, ap, subst, ◌∙◌, ◌↔◌,
  inl, inr, arith, find_row, update_rows, find_row-update, find_row_test, ◌==◌, Bool-cases,
  Option-cases, if◌then◌else◌,
}
use order_sync.Contracts.{Error, Result, SyncStatus}
use order_sync.Postgres.Queries.Jobs.{has_job_id}
use order_sync.Postgres.Schema.{JobRow, Env, Db}
use order_sync.Postgres.Tx.{pure, throw, ◌>>=◌, wrapping, statement}
use order_sync.Postgres.Ids.{Distinct}
use order_sync.Worker.Deliver.{is_dead}
use order_sync.Admin.{is_dead_job, replayed_row, count_rows, replay_update, replay_dead_job}

abbrev dead_at : Option JobRow → ℕ
dead_at none = 0
dead_at (some j) = if is_dead j.status then 1 else 0

count_rows-none :
    (id : ℕ) (jobs : List JobRow)
    → find_row (has_job_id id) jobs ≡ none
    → count_rows (is_dead_job id) jobs ≡ 0
unfolding count_rows find_row
count_rows-none id [] h = refl
count_rows-none id (j ∷ jobs) h = ground (arith, count_rows-none id jobs)

pub count_rows-dead :
    (id : ℕ) (jobs : List JobRow)
    → Distinct jobs
    → count_rows (is_dead_job id) jobs ≡ dead_at (find_row (has_job_id id) jobs)
unfolding count_rows find_row
count_rows-dead id [] d = refl
count_rows-dead id (j ∷ jobs) (fresh, d) = elim (Bool-cases (has_job_id id j)) [
  | inl here ↦
      let same : j.id ≡ id = ground arith in
      let gone : find_row (has_job_id id) jobs ≡ none =
        subst (λ i. find_row (has_job_id i) jobs ≡ none) same fresh in
      ground (arith, count_rows-none id jobs)
  | inr there ↦ ground (arith, count_rows-dead id jobs d)
]

update_rows-alive :
    (id : ℕ) (f : JobRow → JobRow) (jobs : List JobRow)
    → count_rows (is_dead_job id) jobs ≡ 0
    → update_rows (is_dead_job id) f jobs ≡ jobs
unfolding count_rows update_rows
update_rows-alive id f [] h = refl
update_rows-alive id f (j ∷ jobs) h = ground (arith, update_rows-alive id f jobs)

module _ (id : ℕ) (env : Env) (s : Db) (sent : env.fault s.calls ≡ false) where
  pub replay-rows :
      (n : ℕ)
      → count_rows (is_dead_job id) s.tables.jobs ≡ n
      → (replay_dead_job id env s).0 ≡ (
          if n == 1
          then Result.ok tt
          else Result.err (Error.message "sync job %d does not exist or is not DEAD"))
  unfolding replay_dead_job replay_update pure throw ◌>>=◌ wrapping statement
  replay-rows n same = ground arith

  pub replay-tables : (replay_dead_job id env s).1.tables ≡ record (s.tables) {
    jobs = update_rows (is_dead_job id) (replayed_row env.now) s.tables.jobs;
  }
  unfolding replay_dead_job replay_update pure throw ◌>>=◌ wrapping statement
  replay-tables = ground arith

  pub only-jobs :
      (replay_dead_job id env s).1.tables
      ≡ record (s.tables) { jobs = (replay_dead_job id env s).1.tables.jobs }
  only-jobs = replay-tables ∙ ap (λ t. record (s.tables) { jobs = t.jobs }) (sym replay-tables)

  found-replayed :
      (x : ℕ)
      → find_row (has_job_id x) (replay_dead_job id env s).1.tables.jobs
        ≡ Option.map
            (λ r. if is_dead_job id r then replayed_row env.now r else r)
            (find_row (has_job_id x) s.tables.jobs)
  found-replayed x = rw replay-tables (
      find_row-update (has_job_id x) (is_dead_job id) (replayed_row env.now) (λ r. refl)
        s.tables.jobs)

  pub other-kept :
      (x : ℕ)
      → x ≢ id
      → find_row (has_job_id x) (replay_dead_job id env s).1.tables.jobs
        ≡ find_row (has_job_id x) s.tables.jobs
  other-kept x other =
      found-replayed x ∙ elim (Option-cases (find_row (has_job_id x) s.tables.jobs)) [
        | inl gone ↦ rw gone refl
        | inr (k, here) ↦
            let same = find_row_test (has_job_id x) s.tables.jobs k here in
            rw here (ground (arith, same, other))
      ]

  pub this-replayed :
      (j : JobRow)
      → find_row (has_job_id id) s.tables.jobs ≡ some j
      → is_dead j.status ≡ true
      → find_row (has_job_id id) (replay_dead_job id env s).1.tables.jobs
        ≡ some (replayed_row env.now j)
  this-replayed j here dead =
      let same = find_row_test (has_job_id id) s.tables.jobs j here in
      found-replayed id ∙ rw here (ground arith)

  pub replay-refused :
      count_rows (is_dead_job id) s.tables.jobs ≡ 0
      → ((e : Error) × ((replay_dead_job id env s).0 ≡ Result.err e))
        × ((replay_dead_job id env s).1.tables ≡ s.tables)
  replay-refused none_dead = (
    (Error.message "sync job %d does not exist or is not DEAD", replay-rows 0 none_dead),
    replay-tables
        ∙ ap (λ l. record (s.tables) { jobs = l })
            (update_rows-alive id (replayed_row env.now) s.tables.jobs none_dead),
  )

pub is_dead-eq : (status : SyncStatus) → (is_dead status ≡ true) ↔ (status ≡ SyncStatus.dead)
is_dead-eq status = (ground arith, ground arith)

pub find_row-mem :
    (p : JobRow → Bool) (jobs : List JobRow) (j : JobRow) → find_row p jobs ≡ some j → Memᴰ j jobs
unfolding find_row
find_row-mem p [] j h = cc
find_row-mem p (k ∷ jobs) j h = elim (Bool-cases (p k)) [
  | inl here ↦ Memᴰ.head (ground arith)
  | inr there ↦ Memᴰ.tail (find_row-mem p jobs j (ground arith))
]
