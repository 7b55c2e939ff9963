-- ===== src/System/Exclusion.antt =====
-- Any number of workers: a job that one has claimed is not claimed again within the two minutes of its lock.
use order_sync.Base.{
  ℕ, ◌+◌, ◌<◌, Bool, true, false, Option, none, some, List, ◌≡◌, ◌≢◌, refl, sym, subst, ap, ◌∙◌,
  inl, inr, arith, find_row, update_rows, find_row-update, find_row_test,
}
use order_sync.Config.{Config}
use order_sync.Contracts.{Result, Time, SyncStatus}
use order_sync.Postgres.Ids.{JobIds, Draws, mem-found}
use order_sync.Postgres.Queries.Jobs.{
  has_job_id, is_scheduled, is_processing, is_claimable, claim_job, locked_row, lock_job,
  lock_timeout,
}
use order_sync.Postgres.Schema.{OrderRow, JobRow, Env, Db}
use order_sync.Admin.{replay_dead_job}
use order_sync.Transaction.Guarantees.{Request, handle}
use order_sync.Worker.Claims.{is_claim, claim_due_nothing, claim_due_locks}
use order_sync.Worker.Deliver.{Round, World, deliver}
use order_sync.Worker.Job.{Job, claim_due}
use order_sync.Worker.Order.{IsFirst, claim_job-IsFirst}
use order_sync.System.Delivery.{deliver-Delivers}
use order_sync.System.Held.{Aside-processing, webhook-Aside, replay-Aside}
use order_sync.System.Rows.{claimed-found}
use order_sync.System.Ids.{handle-Draws, replay-Draws, deliver-Draws, claim_due-Draws}

module _ (cfg : Config) (id : ℕ) (t : Time) where
  -- What others may do while the lock that was taken at `t` on the job `id` holds: webhooks, replays,
  -- claims by the database's clock, and deliveries of other jobs.
  pub data Meanwhile : Db → Db → Type 0 where
    rests : (s : Db) → Meanwhile s s
    webhook :
        (s u : Db) (env : Env) (request : Request)
        → Meanwhile (handle cfg request env s) u
        → Meanwhile s u
    replays :
        (s u : Db) (env : Env) (other : ℕ)
        → Meanwhile (replay_dead_job other env s).1 u
        → Meanwhile s u
    claims :
        (s u : Db) (locked : ℕ → Bool) (env : Env)
        → env.now < t + lock_timeout
        → Meanwhile (claim_due locked env s).1 u
        → Meanwhile s u
    delivers :
        (w : World) (u : Db) (round : Round) (job : Job)
        → job.id ≢ id
        → Meanwhile (deliver cfg round job w).db u
        → Meanwhile w.db u

  -- The row of the lock.
  record IsLocked (s : Db) (j : JobRow) : Type 0 where
    ids : JobIds s
    found : find_row (has_job_id id) s.tables.jobs ≡ some j
    processing : j.status ≡ SyncStatus.processing
    locked : j.locked_at ≡ some t

  other_row :
      (x : ℕ) (change : JobRow → JobRow) (j : JobRow) (jobs : List JobRow)
      → x ≢ id
      → ((k : JobRow) → (change k).id ≡ k.id)
      → find_row (has_job_id id) jobs ≡ some j
      → find_row (has_job_id id) (update_rows (has_job_id x) change jobs) ≡ some j
  other_row x change j jobs other keeps found =
      find_row-update (has_job_id id) (has_job_id x) change (λ r. ground (arith, keeps r)) jobs
      ∙ rw found (ground (arith, find_row_test (has_job_id id) jobs j found, other))

  not_claimable :
      (now : Time) (o : OrderRow) (j : JobRow)
      → j.status ≡ SyncStatus.processing
      → j.locked_at ≡ some t
      → now < t + lock_timeout
      → is_claimable now o j ≡ false
  unfolding is_claimable is_scheduled is_processing
  not_claimable now o j status locked early = ground arith

  module _ (locked : ℕ → Bool) (env : Env) (s : Db) (j : JobRow) (h : IsLocked s j)
      (early : env.now < t + lock_timeout) where
    claims_other :
        (k : JobRow) (o : OrderRow) → claim_job env.now locked s.tables ≡ some (o, k) → k.id ≢ id
    claims_other k o e same =
        let first : IsFirst env.now locked s.tables.orders s.tables.jobs (some (o, k)) =
          subst (IsFirst env.now locked s.tables.orders s.tables.jobs) e
            (claim_job-IsFirst env.now locked s.tables) in
        let (m, can, _) = first in
        let here : find_row (has_job_id id) s.tables.jobs ≡ some k =
          subst (λ i. find_row (has_job_id i) s.tables.jobs ≡ some k) same
            (mem-found k s.tables.jobs h.ids.distinct m) in
        let this : k ≡ j = cc (here, h.found) in
        absurd (
          ground (
            arith,
            not_claimable env.now o j h.processing h.locked early,
            subst (λ r. is_claimable env.now o r ≡ true) this can.2,
          ))

    claimed_other : (job : Job) → (claim_due locked env s).0 ≡ Result.ok (some job) → job.id ≢ id
    claimed_other job e same =
        let (o, k, found, c) = claim_due_locks locked env s job e in
        claims_other k o found (sym c.same_id ∙ same)

    claim_due-found : find_row (has_job_id id) (claim_due locked env s).1.tables.jobs ≡ some j
    unfolding lock_job
    claim_due-found = by_claim (claim_due locked env s).0 refl
      where
        nothing :
            is_claim (claim_due locked env s).0 ≡ false
            → find_row (has_job_id id) (claim_due locked env s).1.tables.jobs ≡ some j
        nothing no_claim =
            ap (λ u. find_row (has_job_id id) u.jobs) (claim_due_nothing locked env s no_claim)
            ∙ h.found

        by_claim :
            (r : Result (Option Job))
            → (claim_due locked env s).0 ≡ r
            → find_row (has_job_id id) (claim_due locked env s).1.tables.jobs ≡ some j
        by_claim (Result.err e) eq = nothing (ap is_claim eq)
        by_claim (Result.ok none) eq = nothing (ap is_claim eq)
        by_claim (Result.ok (some job)) eq =
            let (o, k, found, c) = claim_due_locks locked env s job eq in
            ap (λ u. find_row (has_job_id id) u.jobs) c.locked_row
            ∙ other_row k.id (locked_row env.now) j s.tables.jobs (claims_other k o found)
                (λ r. refl) h.found

  deliver-found :
      (round : Round) (job : Job) (w : World) (j : JobRow)
      → job.id ≢ id
      → find_row (has_job_id id) w.db.tables.jobs ≡ some j
      → find_row (has_job_id id) (deliver cfg round job w).db.tables.jobs ≡ some j
  deliver-found round job w j other found = elim (deliver-Delivers cfg round job w).rows [
    | inl same ↦ ap (find_row (has_job_id id)) same ∙ found
    | inr (change, changed, keeps, _) ↦
        ap (find_row (has_job_id id)) changed
        ∙ other_row job.id change j w.db.tables.jobs other keeps found
  ]

  IsLocked-kept :
      (s u : Db) (j : JobRow)
      → Draws s u
      → find_row (has_job_id id) u.tables.jobs ≡ some j
      → IsLocked s j
      → IsLocked u j
  IsLocked-kept s u j d found h = record {
    ids = d.ids h.ids;
    found = found;
    processing = h.processing;
    locked = h.locked;
  }

  Meanwhile-IsLocked : (s u : Db) (j : JobRow) → Meanwhile s u → IsLocked s j → IsLocked u j
  Meanwhile-IsLocked s u j (Meanwhile.rests _) h = h
  Meanwhile-IsLocked s u j (Meanwhile.webhook _ _ env request rest) h =
      let (k, found, aside) = webhook-Aside cfg request env s id j h.found in
      Meanwhile-IsLocked _ u j rest (
        IsLocked-kept s _ j (handle-Draws cfg request env s)
          (found ∙ ap some (Aside-processing _ j k h.processing aside)) h)
  Meanwhile-IsLocked s u j (Meanwhile.replays _ _ env other rest) h =
      let (k, found, aside) = replay-Aside other env s id j h.found in
      Meanwhile-IsLocked _ u j rest (
        IsLocked-kept s _ j (replay-Draws other env s)
          (found ∙ ap some (Aside-processing _ j k h.processing aside)) h)
  Meanwhile-IsLocked s u j (Meanwhile.claims _ _ locked env early rest) h =
      Meanwhile-IsLocked _ u j rest (
        IsLocked-kept s _ j (claim_due-Draws locked env s) (claim_due-found locked env s j h early)
          h)
  Meanwhile-IsLocked s u j (Meanwhile.delivers w _ round job other rest) h =
      Meanwhile-IsLocked _ u j rest (
        IsLocked-kept w.db _ j (deliver-Draws cfg round job w)
          (deliver-found round job w j other h.found) h)

-- With job ids that are distinct and below their sequence: once a claim has given a job, then for two
-- minutes of the database's clock, whatever webhooks, replays, claims by any workers and deliveries of other
-- jobs come, its row stays PROCESSING and counts the attempt under way, and no claim gives the job again.
pub claim_excludes :
    (cfg : Config) (locked : ℕ → Bool) (env : Env) (s : Db)
    → JobIds s
    → (job : Job) → (claim_due locked env s).0 ≡ Result.ok (some job)
    → (u : Db) → Meanwhile cfg job.id env.now (claim_due locked env s).1 u
    → (locked' : ℕ → Bool) (env' : Env) → env'.now < env.now + lock_timeout
    → ((j : JobRow) × (find_row (has_job_id job.id) u.tables.jobs ≡ some j)
        × (j.status ≡ SyncStatus.processing)
        × (j.attempts ≡ job.attempts))
      × ((again : Job) → (claim_due locked' env' u).0 ≡ Result.ok (some again) → again.id ≢ job.id)
claim_excludes cfg locked env s ids job e u meanwhile locked' env' early =
    let (o, j, _, _, c, found) = claimed-found locked env s ids job e in
    let h = Meanwhile-IsLocked cfg job.id env.now _ u (locked_row env.now j) meanwhile (record {
      ids = (claim_due-Draws locked env s).ids ids;
      found = found;
      processing = refl;
      locked = refl;
    }) in
    (
      (locked_row env.now j, h.found, refl, sym c.attempt),
      λ again. claimed_other cfg job.id env.now locked' env' u (locked_row env.now j) h early again,
    )
