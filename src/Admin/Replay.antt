-- ===== src/Admin/Replay.antt =====
-- What replayDeadJob does to the jobs.
use mathlib.Core.List.{Memᴰ}
use order_sync.Base.{
  ℕ, ◌≤◌, not, Bool, false, Option, none, some, ◌≡◌, ◌≢◌, refl, sym, ap, subst, ◌∙◌, ◌⊎◌, inl, inr,
  arith, find_row, find_row_test, ◌==◌, Bool-cases, Option-cases,
}
use order_sync.Contracts.{Error, Result, Time, SyncStatus}
use order_sync.Postgres.Queries.Jobs.{
  has_job_id, is_claimable, is_scheduled, claim_key, claim_job, Candidate, is_cancelled_order,
}
use order_sync.Postgres.Queries.Orders.{has_id}
use order_sync.Postgres.Schema.{OrderRow, JobRow, Tables, Env, Db}
use order_sync.Postgres.Ids.{Distinct, mem-found, update_rows-Distinct}
use order_sync.Worker.Deliver.{is_dead}
use order_sync.Worker.Order.{CanClaim, IsFirst, claim_job-IsFirst}
use order_sync.Admin.{is_dead_job, replayed_row, count_rows, replay_dead_job}
use order_sync.Admin.Rows.{
  count_rows-dead, replay-rows, replay-refused, this-replayed, other-kept, only-jobs, replay-tables,
  find_row-mem, is_dead-eq,
}

-- For job ids that are distinct and a statement that is sent: either the job is there and DEAD, the replay
-- succeeds, and the job is PENDING, due now, with no attempts and nothing left of its deliveries, while
-- every other job and every other table is as it was; or the job is missing or not DEAD, the replay fails, and no table changes.
pub replay_only_dead :
    (id : ℕ) (env : Env) (s : Db)
    → env.fault s.calls ≡ false
    → Distinct s.tables.jobs
    → let (r, s') = replay_dead_job id env s in
      ((j : JobRow) × (find_row (has_job_id id) s.tables.jobs ≡ some j)
        × (j.status ≡ SyncStatus.dead)
        × (r ≡ Result.ok tt)
        × (find_row (has_job_id id) s'.tables.jobs
            ≡ some (record {
              id = j.id;
              order_id = j.order_id;
              status = SyncStatus.pending;
              due_at = env.now;
              attempts = 0;
              locked_at = none;
              waiting_since = none;
              last_error = none;
              sap_internal_id = none;
              synced_at = none;
            }))
        × (s'.tables ≡ record (s.tables) { jobs = s'.tables.jobs })
        × ((x : ℕ)
            → x ≢ id
            → find_row (has_job_id x) s'.tables.jobs ≡ find_row (has_job_id x) s.tables.jobs))
      ⊎ (((j : JobRow)
            → find_row (has_job_id id) s.tables.jobs ≡ some j
            → j.status ≢ SyncStatus.dead)
          × ((e : Error) × (r ≡ Result.err e))
          × (s'.tables ≡ s.tables))
replay_only_dead id env s sent d = elim (Option-cases (find_row (has_job_id id) s.tables.jobs)) [
  | inl gone ↦
      let (refused, same) =
        replay-refused id env s sent (count_rows-dead id s.tables.jobs d ∙ rw gone refl) in
      inr (λ j here. cc, refused, same)
  | inr (j, here) ↦ elim (Bool-cases (is_dead j.status)) [
    | inl dead ↦
        let one : count_rows (is_dead_job id) s.tables.jobs ≡ 1 =
          count_rows-dead id s.tables.jobs d ∙ rw here (rw dead refl) in
        inl (
          j,
          here,
          (is_dead-eq j.status).0 dead,
          replay-rows id env s sent 1 one,
          this-replayed id env s sent j here dead,
          only-jobs id env s sent,
          other-kept id env s sent,
        )
    | inr alive ↦
        let (refused, same) =
          replay-refused id env s sent
            (count_rows-dead id s.tables.jobs d ∙ rw here (rw alive refl)) in
        inr (λ k there. λ dead. ground (arith, (is_dead-eq k.status).1 dead), refused, same)
  ]
]

-- A DEAD job that is replayed, for job ids that are distinct, its order stored and not cancelled and the statement
-- sent: at any instant from then on ClaimJob gives this job, with its order, to a transaction that finds the
-- other jobs' rows locked; and with no row locked it gives a job that is due or out of its lock no later than
-- the replay.
pub replay-claim_job :
    (id : ℕ) (env : Env) (s : Db) (j : JobRow) (o : OrderRow)
    → env.fault s.calls ≡ false
    → Distinct s.tables.jobs
    → find_row (has_job_id id) s.tables.jobs ≡ some j
    → j.status ≡ SyncStatus.dead
    → find_row (has_id j.order_id) s.tables.orders ≡ some o
    → is_cancelled_order o.payment_status ≡ false
    → (now : Time) → env.now ≤ now
    → let t = (replay_dead_job id env s).1.tables in
      ((k : JobRow) × (claim_job now (λ x. not (x == id)) t ≡ some (o, k))
        × (k.id ≡ id)
        × (k.status ≡ SyncStatus.pending)
        × (k.attempts ≡ 0))
      × ((c : Candidate) × (claim_job now (λ x. false) t ≡ some c) × (claim_key c.1 ≤ env.now))
unfolding is_claimable is_scheduled claim_key
replay-claim_job id env s j o sent distinct here dead order open_order now later = (
  this_one (claim_job now (λ x. not (x == id)) after) refl,
  some_one (claim_job now (λ x. false) after) refl,
)
  where
    after : Tables
    after = (replay_dead_job id env s).1.tables

    row : JobRow
    row = replayed_row env.now j

    replayed : find_row (has_job_id id) after.jobs ≡ some row
    replayed = this-replayed id env s sent j here ((is_dead-eq j.status).1 dead)

    its_id : row.id ≡ id
    its_id = ground (arith, find_row_test (has_job_id id) s.tables.jobs j here)

    stored : Memᴰ row after.jobs
    stored = find_row-mem (has_job_id id) after.jobs row replayed

    same_orders : find_row (has_id j.order_id) after.orders ≡ some o
    same_orders =
        ap (λ t. find_row (has_id j.order_id) t.orders) (replay-tables id env s sent) ∙ order

    can : (locked : ℕ → Bool) → locked row.id ≡ false → CanClaim now locked after.orders o row
    can locked idle = (idle, same_orders, ground (arith, later, open_order))

    is_first :
        (locked : ℕ → Bool) (found : Option Candidate)
        → claim_job now locked after ≡ found
        → IsFirst now locked after.orders after.jobs found
    is_first locked found e =
        subst (IsFirst now locked after.orders after.jobs) e (claim_job-IsFirst now locked after)

    distinct_after : Distinct after.jobs
    distinct_after =
        subst (λ (t : Tables). Distinct t.jobs) (sym (replay-tables id env s sent))
          (update_rows-Distinct (is_dead_job id) (replayed_row env.now) (λ r. refl) s.tables.jobs
            distinct)

    this_one :
        (found : Option Candidate)
        → claim_job now (λ x. not (x == id)) after ≡ found
        → (k : JobRow) × (claim_job now (λ x. not (x == id)) after ≡ some (o, k))
          × (k.id ≡ id)
          × (k.status ≡ SyncStatus.pending)
          × (k.attempts ≡ 0)
    this_one none e = absurd (
        is_first (λ x. not (x == id)) none e o row stored
          (can (λ x. not (x == id)) (ground (arith, its_id))))
    this_one (some (p, k)) e =
        let (m, (unlocked, its_order, _), _) = is_first (λ x. not (x == id)) (some (p, k)) e in
        let this_id : k.id ≡ id = ground (arith, unlocked) in
        let found : find_row (has_job_id id) after.jobs ≡ some k =
          subst (λ i. find_row (has_job_id i) after.jobs ≡ some k) this_id
            (mem-found k after.jobs distinct_after m) in
        let this_row : k ≡ row = cc (found, replayed) in
        let this_order : p ≡ o = cc (its_order, same_orders, ap JobRow.order_id this_row) in
        (
          k,
          e ∙ ap (λ q. some (q, k)) this_order,
          this_id,
          ap JobRow.status this_row,
          ap JobRow.attempts this_row,
        )

    some_one :
        (found : Option Candidate)
        → claim_job now (λ x. false) after ≡ found
        → (c : Candidate) × (claim_job now (λ x. false) after ≡ some c) × (claim_key c.1 ≤ env.now)
    some_one none e = absurd (is_first (λ x. false) none e o row stored (can (λ x. false) refl))
    some_one (some c) e =
        let (_, _, least) = is_first (λ x. false) (some c) e in
        (c, e, least o row stored (can (λ x. false) refl))
