-- ===== src/Worker/Claims.antt =====
-- What ClaimDue does: which row it takes, what it makes of it, and that it takes nothing else.
use order_sync.Base.{
  ℕ, suc, Bool, true, false, Option, none, some, ◌≡◌, inl, inr, arith, Option-cases,
}
use order_sync.Contracts.{Result, Time}
use order_sync.Postgres.Schema.{OrderRow, JobRow, Tables, Db, Env}
use order_sync.Postgres.Tx.{pure, throw, ◌>>=◌, wrapping, statement, reads, writes}
use order_sync.Postgres.Queries.Jobs.{claim_job, lock_job}
use order_sync.Worker.Job.{Job, claim_due}

-- The row that a successful claim returns, and the tables that it leaves.
pub record Claims (now : Time) (t : Tables) (job : Job) (t' : Tables) (o : OrderRow) (j : JobRow)
    : Type 0 where
  pub locked_row : t' ≡ lock_job j.id now t
  pub same_id : job.id ≡ j.id
  pub attempt : job.attempts ≡ suc j.attempts
  pub same_status : job.status ≡ j.status

abbrev pub is_claim : Result (Option Job) → Bool
is_claim (Result.ok (some job)) = true
is_claim _ = false

module _ (locked : ℕ → Bool) (env : Env) (s : Db) where
  claim_due-none :
      claim_job env.now locked s.tables ≡ none
      → (is_claim (claim_due locked env s).0 ≡ false)
        × ((claim_due locked env s).1.tables ≡ s.tables)
  unfolding claim_due pure throw ◌>>=◌ wrapping statement reads writes
  claim_due-none none_found = (ground arith, ground arith)

  module _ (o : OrderRow) (j : JobRow)
      (found : claim_job env.now locked s.tables ≡ some (o, j)) where
    claim_due-some :
        (job : Job)
        → (claim_due locked env s).0 ≡ Result.ok (some job)
        → Claims env.now s.tables job (claim_due locked env s).1.tables o j
    unfolding claim_due pure throw ◌>>=◌ wrapping statement reads writes
    claim_due-some job = elim (Option-cases o.paid_at) [
      | inl unpaid ↦ ground arith
      | inr (t, paid) ↦ ground arith
    ]

    claim_due_failed :
        is_claim (claim_due locked env s).0 ≡ false → (claim_due locked env s).1.tables ≡ s.tables
    unfolding claim_due pure throw ◌>>=◌ wrapping statement reads writes
    claim_due_failed = elim (Option-cases o.paid_at) [
      | inl unpaid ↦ ground arith
      | inr (t, paid) ↦ ground arith
    ]

  -- A claim that gives no job, for whatever reason, changes nothing.
  pub claim_due_nothing :
      is_claim (claim_due locked env s).0 ≡ false → (claim_due locked env s).1.tables ≡ s.tables
  claim_due_nothing h = elim (Option-cases (claim_job env.now locked s.tables)) [
    | inl nothing ↦ (claim_due-none nothing).1
    | inr ((o, j), found) ↦ claim_due_failed o j found h
  ]

  -- A claim that gives a job locks the row that ClaimJob found, with one more attempt.
  pub claim_due_locks :
      (job : Job)
      → (claim_due locked env s).0 ≡ Result.ok (some job)
      → (o : OrderRow) × (j : JobRow) × (claim_job env.now locked s.tables ≡ some (o, j))
        × Claims env.now s.tables job (claim_due locked env s).1.tables o j
  claim_due_locks job h = elim (Option-cases (claim_job env.now locked s.tables)) [
    | inl nothing ↦ absurd (ground (arith, claim_due-none nothing))
    | inr ((o, j), found) ↦ (o, j, found, claim_due-some o j found job h)
  ]
