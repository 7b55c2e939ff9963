-- ===== src/System/Held.antt =====
-- While the worker holds a job its row is PROCESSING; and what each step of the process does to a row.
use order_sync.Base.{
  ℕ, Option, none, some, List, ◌≡◌, refl, sym, subst, ap, ◌∙◌, inl, inr, arith, find_row,
  Bool-cases, if◌then◌else◌,
}
use order_sync.Config.{Config}
use order_sync.Contracts.{Time, SyncStatus}
use order_sync.Postgres.Evolution.{JobKey, KeepsRows, KeepsRows-refl, KeepsRows-update}
use order_sync.Postgres.Queries.Jobs.{has_job_id, is_processing}
use order_sync.Postgres.Schema.{JobRow, Env, Db}
use order_sync.Admin.{is_dead_job, replayed_row, replay_dead_job}
use order_sync.Admin.Rows.{is_dead-eq}
use order_sync.Transaction.Guarantees.{Request, handle, handle-Evolves}
use order_sync.Worker.Job.{Job}
use order_sync.System.Ids.{replay-rows}
use order_sync.System.Lifecycle.{Actor, Transition, MayDraw, Aside, SameJob-Aside, Aside-MayDraw}

-- The row of the job that is held.
abbrev pub Held : Option Job → List JobRow → Type 0
Held none jobs = Unit {0}
Held (some job) jobs =
    (j : JobRow) × (find_row (has_job_id job.id) jobs ≡ some j)
    × (j.status ≡ SyncStatus.processing)
    × (j.attempts ≡ job.attempts)

abbrev pub Moved : Actor → JobRow → JobRow → Type 0
Moved actor a b = MayDraw actor a.status b.status

pub Aside-processing :
    (actor : Actor) (a b : JobRow) → a.status ≡ SyncStatus.processing → Aside actor a b → b ≡ a
unfolding is_processing
Aside-processing actor a b h (inl same) = same
Aside-processing actor a b h (inr (other, _)) = absurd (ground (arith, ap is_processing h))

-- A job that is held stays as it is.
pub Held-Aside :
    (actor : Actor) (holding : Option Job) (jobs jobs' : List JobRow)
    → KeepsRows has_job_id (Aside actor) jobs jobs'
    → Held holding jobs
    → Held holding jobs'
Held-Aside actor none jobs jobs' keeps h = tt
Held-Aside actor (some job) jobs jobs' keeps (j, found, status, attempts) =
    let (j', found', aside) = keeps job.id j found in
    let same = Aside-processing actor j j' status aside in
    (j', found', ap JobRow.status same ∙ status, ap JobRow.attempts same ∙ attempts)

pub Aside-Moved :
    (actor : Actor) (jobs jobs' : List JobRow)
    → KeepsRows has_job_id (Aside actor) jobs jobs'
    → KeepsRows has_job_id (Moved actor) jobs jobs'
Aside-Moved actor jobs jobs' keeps id j found =
    let (j', found', aside) = keeps id j found in (j', found', Aside-MayDraw actor j j' aside)

pub webhook-Aside :
    (cfg : Config) (request : Request) (env : Env) (s : Db)
    → KeepsRows has_job_id
        (Aside Actor.webhook)
        s.tables.jobs
        (handle cfg request env s).tables.jobs
webhook-Aside cfg request env s id j found =
    let (j', found', same) = (handle-Evolves cfg request env s).jobs (JobKey.by_id id) j found in
    (j', found', SameJob-Aside j j' same)

replayed-Aside :
    (id : ℕ) (now : Time) (r : JobRow)
    → Aside Actor.operator r (if is_dead_job id r then replayed_row now r else r)
unfolding is_processing
replayed-Aside id now r = elim (Bool-cases (is_dead_job id r)) [
  | inl here ↦
      let dead = (is_dead-eq r.status).0 (ground arith) in
      rw here (inr (rw dead refl, rw dead Transition.replay))
  | inr there ↦ rw there (inl refl)
]

pub replay-Aside :
    (id : ℕ) (env : Env) (s : Db)
    → KeepsRows has_job_id
        (Aside Actor.operator)
        s.tables.jobs
        (replay_dead_job id env s).1.tables.jobs
replay-Aside id env s = elim (replay-rows id env s).1 [
  | inl same ↦
      subst (KeepsRows has_job_id (Aside Actor.operator) s.tables.jobs) (sym same)
        (KeepsRows-refl has_job_id (Aside Actor.operator) (λ r. inl refl) s.tables.jobs)
  | inr changed ↦ subst (KeepsRows has_job_id (Aside Actor.operator) s.tables.jobs) (sym changed) (
      KeepsRows-update has_job_id (Aside Actor.operator) (is_dead_job id) (replayed_row env.now)
        (λ k r. refl) (replayed-Aside id env.now) s.tables.jobs)
]
