-- ===== src/System/Rows.antt =====
-- What a claim and a delivery of the one worker do to a row.
use mathlib.Core.Option
use order_sync.Base.{
  ℕ, Bool, true, false, Option, none, some, List, ◌||◌, ◌≡◌, refl, sym, subst, ap, ◌∙◌, inl, inr,
  arith, find_row, update_rows, find_row-update, find_row_test, Bool-cases, if◌then◌else◌,
}
use order_sync.Config.{Config}
use order_sync.Contracts.{Result, Time, SyncStatus}
use order_sync.Postgres.Evolution.{KeepsRows, KeepsRows-refl}
use order_sync.Postgres.Ids.{JobIds, mem-found}
use order_sync.Postgres.Queries.Jobs.{
  has_job_id, is_scheduled, is_processing, is_claimable, locked_row, lock_job,
}
use order_sync.Postgres.Schema.{OrderRow, JobRow, Env, Db}
use order_sync.Worker.Claims.{Claims, is_claim, claim_due_nothing, claim_due_locks}
use order_sync.Worker.Deliver.{Round, World, deliver}
use order_sync.Worker.Job.{Job, claim_due}
use order_sync.Worker.Order.{IsFirst, claim_job-IsFirst}
use order_sync.System.Delivery.{deliver-Delivers}
use order_sync.System.Held.{Held, Moved}
use order_sync.System.Lifecycle.{Actor, Transition, MayDraw}
use order_sync.System.{claimed}

unchanged-Moved :
    (actor : Actor) (jobs jobs' : List JobRow)
    → jobs' ≡ jobs
    → KeepsRows has_job_id (Moved actor) jobs jobs'
unchanged-Moved actor jobs jobs' same =
    subst (KeepsRows has_job_id (Moved actor) jobs) (sym same)
      (KeepsRows-refl has_job_id (Moved actor) (λ r. inl refl) jobs)

-- One row is changed, along an arrow.
changed-Moved :
    (actor : Actor) (j : JobRow) (change : JobRow → JobRow) (jobs : List JobRow)
    → ((k : JobRow) → (change k).id ≡ k.id)
    → find_row (has_job_id j.id) jobs ≡ some j
    → Moved actor j (change j)
    → KeepsRows has_job_id (Moved actor) jobs (update_rows (has_job_id j.id) change jobs)
changed-Moved actor j change jobs keeps found moved id k here = (
  (if has_job_id j.id k then change k else k),
  find_row-update (has_job_id id) (has_job_id j.id) change (λ r. ground (arith, keeps r)) jobs
      ∙ ap (Option.map (λ r. if has_job_id j.id r then change r else r)) here,
  elim (Bool-cases (has_job_id j.id k)) [
    | inr other ↦ rw other (inl refl)
    | inl this ↦
        let this_id : k.id ≡ j.id = ground arith in
        let its_id : k.id ≡ id = ground (arith, find_row_test (has_job_id id) jobs k here) in
        let same : k ≡ j = cc (here, found, this_id, its_id) in
        rw this (subst (λ r. Moved actor r (change r)) (sym same) moved)
  ],
)

claimable-live :
    (now : Time) (o : OrderRow) (j : JobRow)
    → is_claimable now o j ≡ true
    → (is_scheduled j.status || is_processing j.status) ≡ true
unfolding is_claimable
claimable-live now o j h = ground arith

live-MayDraw :
    (status : SyncStatus)
    → (is_scheduled status || is_processing status) ≡ true
    → MayDraw Actor.claims status SyncStatus.processing
unfolding is_scheduled is_processing
live-MayDraw SyncStatus.pending h = inr Transition.claim
live-MayDraw SyncStatus.waiting h = inr Transition.recovery_retry
live-MayDraw SyncStatus.processing h = inl refl
live-MayDraw SyncStatus.synced h = cc
live-MayDraw SyncStatus.dead h = cc
live-MayDraw SyncStatus.cancelled h = cc
live-MayDraw (SyncStatus.other t) h = cc

module _ (locked : ℕ → Bool) (env : Env) (s : Db) (ids : JobIds s) where
  abbrev result : Result (Option Job) × Db
  result = claim_due locked env s

  -- The claimed row, as the claim leaves it.
  pub claimed-found :
      (job : Job)
      → result.0 ≡ Result.ok (some job)
      → (o : OrderRow) × (j : JobRow) × (find_row (has_job_id j.id) s.tables.jobs ≡ some j)
        × (is_claimable env.now o j ≡ true)
        × Claims env.now s.tables job result.1.tables o j
        × (find_row (has_job_id job.id) result.1.tables.jobs ≡ some (locked_row env.now j))
  unfolding lock_job
  claimed-found job e =
      let (o, j, found, c) = claim_due_locks locked env s job e in
      let first : IsFirst env.now locked s.tables.orders s.tables.jobs (some (o, j)) =
        subst (IsFirst env.now locked s.tables.orders s.tables.jobs) found
          (claim_job-IsFirst env.now locked s.tables) in
      let (m, can, _) = first in
      let here = mem-found j s.tables.jobs ids.distinct m in
      let lock = update_rows (has_job_id j.id) (locked_row env.now) s.tables.jobs in
      (
        o,
        j,
        here,
        can.2,
        c,
        ap (λ t. find_row (has_job_id job.id) t.jobs) c.locked_row
            ∙ ap (λ i. find_row (has_job_id i) lock) c.same_id
            ∙ find_row-update (has_job_id j.id) (has_job_id j.id) (locked_row env.now) (λ k. refl)
                s.tables.jobs
            ∙ rw here (ground arith),
      )

  claims_job :
      (job : Job)
      → result.0 ≡ Result.ok (some job)
      → KeepsRows has_job_id (Moved Actor.claims) s.tables.jobs result.1.tables.jobs
        × Held (some job) result.1.tables.jobs
  unfolding lock_job
  claims_job job e =
      let (o, j, here, can, c, after) = claimed-found job e in
      (
        subst (λ t. KeepsRows has_job_id (Moved Actor.claims) s.tables.jobs t.jobs)
            (sym c.locked_row)
            (changed-Moved Actor.claims j (locked_row env.now) s.tables.jobs (λ k. refl) here
              (live-MayDraw j.status (claimable-live env.now o j can))),
        (locked_row env.now j, after, refl, sym c.attempt),
      )

  pub claim_due-Moved :
      KeepsRows has_job_id (Moved Actor.claims) s.tables.jobs result.1.tables.jobs
      × Held (claimed result.0) result.1.tables.jobs
  claim_due-Moved = by_claim result.0 refl
    where
      nothing :
          is_claim result.0 ≡ false
          → KeepsRows has_job_id (Moved Actor.claims) s.tables.jobs result.1.tables.jobs
      nothing h = unchanged-Moved _ _ _ (ap (λ t. t.jobs) (claim_due_nothing locked env s h))

      by_claim :
          (r : Result (Option Job))
          → result.0 ≡ r
          → KeepsRows has_job_id (Moved Actor.claims) s.tables.jobs result.1.tables.jobs
            × Held (claimed r) result.1.tables.jobs
      by_claim (Result.err e) eq = (nothing (ap is_claim eq), tt)
      by_claim (Result.ok none) eq = (nothing (ap is_claim eq), tt)
      by_claim (Result.ok (some job)) eq = claims_job job eq

pub deliver-Moved :
    (cfg : Config) (round : Round) (job : Job) (w : World)
    → Held (some job) w.db.tables.jobs
    → KeepsRows has_job_id
        (Moved Actor.delivers)
        w.db.tables.jobs
        (deliver cfg round job w).db.tables.jobs
deliver-Moved cfg round job w (j, found, status, _) = elim (deliver-Delivers cfg round job w).rows [
  | inl same ↦ unchanged-Moved _ _ _ same
  | inr (change, changed, keeps, outcome) ↦
      let id : j.id ≡ job.id =
        ground (arith, find_row_test (has_job_id job.id) w.db.tables.jobs j found) in
      subst (KeepsRows has_job_id (Moved Actor.delivers) w.db.tables.jobs) (sym changed) (
        subst
          (λ i.
            KeepsRows has_job_id (Moved Actor.delivers) w.db.tables.jobs
              (update_rows (has_job_id i) change w.db.tables.jobs))
          id
          (changed-Moved Actor.delivers j change w.db.tables.jobs keeps
            (subst (λ i. find_row (has_job_id i) w.db.tables.jobs ≡ some j) (sym id) found)
            (inr (
              subst (λ a. Transition Actor.delivers a (change j).status) (sym status)
                (outcome j)))))
]
