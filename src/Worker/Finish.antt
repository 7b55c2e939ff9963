-- ===== src/Worker/Finish.antt =====
-- drainDue ends: while its statements are sent, it makes no more turns than the stored jobs allow.
use mathlib.Core.List.{Memᴰ}
use order_sync.Base.{
  ℕ, suc, ◌*◌, ◌-◌, ◌<◌, Bool, true, false, Option, none, some, List, [], ◌∷◌, ◌++◌, ◌≡◌, ◌≢◌, refl,
  ap, sym, subst, ◌∙◌, arith, length, find_row, update_rows, Bool-cases, inl, inr, if◌then◌else◌,
}
use order_sync.Config.{Config}
use order_sync.Contracts.{Result, Time}
use order_sync.Postgres.Schema.{OrderRow, JobRow, Tables, Db}
use order_sync.Postgres.Queries.Jobs.{
  has_job_id, locked_row, is_claimable, is_scheduled, is_processing, lock_job,
}
use order_sync.Postgres.Ids.{Distinct, update_rows-Distinct}
use order_sync.Worker.Budget.{weight, budget, budget-le, budget-update}
use order_sync.Worker.Claims.{claim_due_locks}
use order_sync.Worker.Deliver.{
  Round, World, is_dead, deliver, deliver_claimed, drain_step, drain_due,
}
use order_sync.Worker.Job.{Job, claim_due}
use order_sync.Worker.Order.{IsFirst, claim_job-IsFirst}
use order_sync.Worker.Retry.{max_total_attempts}
use order_sync.Worker.Settle.{Settles, deliver-Settles}

update_rows-update :
    (id : ℕ) (f g : JobRow → JobRow)
    → ((j : JobRow) → (g j).id ≡ j.id)
    → (jobs : List JobRow)
    → update_rows (has_job_id id) f (update_rows (has_job_id id) g jobs)
      ≡ update_rows (has_job_id id) (λ j. f (g j)) jobs
unfolding update_rows
update_rows-update id f g keeps [] = refl
update_rows-update id f g keeps (j ∷ jobs) =
    ground (arith, keeps j, update_rows-update id f g keeps jobs)

claimable-weight :
    (cfg : Config) (now : Time) (o : OrderRow) (j : JobRow)
    → is_claimable now o j ≡ true
    → (weight cfg j ≡ suc (max_total_attempts cfg - j.attempts)) × (is_dead j.status ≡ false)
unfolding is_claimable is_scheduled is_processing weight
claimable-weight cfg now o j h = (ground arith, ground arith)

mem-found_some :
    (id : ℕ) (f : JobRow → JobRow) (j : JobRow) (jobs : List JobRow)
    → ((k : JobRow) → (f k).id ≡ k.id)
    → Memᴰ j jobs
    → id ≡ j.id
    → find_row (has_job_id id) (update_rows (has_job_id j.id) f jobs) ≢ none
unfolding find_row update_rows
mem-found_some id f j [] keeps m e = elim m [ ]
mem-found_some id f j (k ∷ jobs) keeps (Memᴰ.head h) e =
    λ lost. ground (arith, keeps k, ap JobRow.id h)
mem-found_some id f j (k ∷ jobs) keeps (Memᴰ.tail m) e =
    λ lost. ground (arith, mem-found_some id f j jobs keeps m e)

module _ (cfg : Config) where
  -- A claim and the delivery after it, as one change of the claimed row.
  spent :
      (a id : ℕ) (j : JobRow) (now : Time) (jobs after : List JobRow)
      → Distinct jobs
      → Memᴰ j jobs
      → a ≡ j.attempts
      → id ≡ j.id
      → weight cfg j ≡ suc (max_total_attempts cfg - j.attempts)
      → Settles cfg a id (update_rows (has_job_id j.id) (locked_row now) jobs) after
      → Distinct after × (budget cfg after < budget cfg jobs)
  spent a id j now jobs after d m same_a same_id w h = (
    subst Distinct (sym whole) (update_rows-Distinct (has_job_id j.id) change keeps jobs d),
    ground (
      arith,
      ap (budget cfg) whole,
      budget-update cfg change j jobs d m,
      h.spends (locked_row now j) (ap suc (sym same_a)),
      w,
    ),
  )
    where
      change : JobRow → JobRow
      change k = h.change (locked_row now k)

      keeps : (k : JobRow) → (change k).id ≡ k.id
      keeps k = h.keeps (locked_row now k)

      whole : after ≡ update_rows (has_job_id j.id) change jobs
      whole =
          rw same_id at h.same ∙ update_rows-update j.id h.change (locked_row now) (λ k. refl) jobs

  module _ (round : Round) (sent : (n : ℕ) → round.env.fault n ≡ false) (w : World)
      (d : Distinct w.db.tables.jobs) where
    abbrev s : Db
    s = (claim_due round.locked round.env w.db).1

    abbrev w' : World
    w' = record w { db = s }

    claimed-spent :
        (job : Job)
        → (claim_due round.locked round.env w.db).0 ≡ Result.ok (some job)
        → let after = (deliver cfg round job w').db.tables.jobs in
          Distinct after × (budget cfg after < budget cfg w.db.tables.jobs)
    unfolding lock_job
    claimed-spent job e =
        let (o, j, found, c) = claim_due_locks round.locked round.env w.db job e in
        let first : IsFirst round.env.now round.locked w.db.tables.orders w.db.tables.jobs
            (some (o, j)) =
          subst (IsFirst round.env.now round.locked w.db.tables.orders w.db.tables.jobs) found
            (claim_job-IsFirst round.env.now round.locked w.db.tables) in
        let (m, can, _) = first in
        let (whole, live) = claimable-weight cfg round.env.now o j can.2 in
        let rows : s.tables.jobs
            ≡ update_rows (has_job_id j.id) (locked_row round.env.now) w.db.tables.jobs =
          ap Tables.jobs c.locked_row in
        spent j.attempts job.id j round.env.now w.db.tables.jobs _ d m refl c.same_id whole (
          subst (λ l. Settles cfg j.attempts job.id l (deliver cfg round job w').db.tables.jobs)
            rows
            (deliver-Settles cfg round sent job j.attempts c.attempt w'
              (ap is_dead c.same_status ∙ live)
              (subst (λ l. find_row (has_job_id job.id) l ≢ none) (sym rows)
                (mem-found_some job.id (locked_row round.env.now) j w.db.tables.jobs (λ k. refl) m
                  c.same_id))))

    drain_step-spent :
        (drain_step cfg round w).1 ≡ true
        → let after = (drain_step cfg round w).0.db.tables.jobs in
          Distinct after × (budget cfg after < budget cfg w.db.tables.jobs)
    unfolding drain_step
    drain_step-spent = by_claim (claim_due round.locked round.env w.db).0 refl
      where
        by_claim :
            (r : Result (Option Job))
            → (claim_due round.locked round.env w.db).0 ≡ r
            → (deliver_claimed cfg round w' r).1 ≡ true
            → let after = (deliver_claimed cfg round w' r).0.db.tables.jobs in
              Distinct after × (budget cfg after < budget cfg w.db.tables.jobs)
        by_claim (Result.err e) eq h = cc
        by_claim (Result.ok none) eq h = cc
        by_claim (Result.ok (some job)) eq h = claimed-spent job eq

-- Whether the loop is left by a claim that gives no job, before the rounds end.
unfoldable pub drain_ends : Config → List Round → World → Bool
drain_ends cfg [] w = false
drain_ends cfg (round ∷ rounds) w =
    let step = drain_step cfg round w in
    let rest = drain_ends cfg rounds step.0 in if step.1 then rest else true

abbrev pub AllSent : List Round → Type 0
AllSent [] = Unit {0}
AllSent (round ∷ rounds) = ((n : ℕ) → round.env.fault n ≡ false) × AllSent rounds

ends_within :
    (cfg : Config) (rounds : List Round) (w : World)
    → AllSent rounds
    → Distinct w.db.tables.jobs
    → budget cfg w.db.tables.jobs < length rounds
    → drain_ends cfg rounds w ≡ true
unfolding drain_ends
ends_within cfg [] w sent d few = absurd (omega arith)
ends_within cfg (round ∷ rounds) w sent d few = elim (Bool-cases (drain_step cfg round w).1) [
  | inl more ↦
      let (d', less) = drain_step-spent cfg round sent.0 w d more in
      rw more (ends_within cfg rounds (drain_step cfg round w).0 sent.1 d' (omega arith))
  | inr done ↦ rw done refl
]

drain_due-append :
    (cfg : Config) (rounds more : List Round) (w : World)
    → drain_ends cfg rounds w ≡ true
    → drain_due cfg (rounds ++ more) w ≡ drain_due cfg rounds w
unfolding drain_ends drain_due
drain_due-append cfg [] more w h = cc
drain_due-append cfg (round ∷ rounds) more w h = elim (Bool-cases (drain_step cfg round w).1) [
  | inl again ↦
      rw again (drain_due-append cfg rounds more (drain_step cfg round w).0 (rw again at h))
  | inr done ↦ rw done refl
]

-- While the job ids are distinct and every statement is sent, whatever SAP answers, whatever rows others
-- hold and however the clocks move: drainDue is left by a claim that gives no job within
-- (maxTotalAttempts + 1) turns for each stored job, and one turn more; what it might have met after that
-- changes nothing.
pub drain_due_ends :
    (cfg : Config) (rounds : List Round) (w : World)
    → AllSent rounds
    → Distinct w.db.tables.jobs
    → length w.db.tables.jobs * suc (max_total_attempts cfg) < length rounds
    → (drain_ends cfg rounds w ≡ true)
      × ((more : List Round) → drain_due cfg (rounds ++ more) w ≡ drain_due cfg rounds w)
drain_due_ends cfg rounds w sent d few =
    let ends = ends_within cfg rounds w sent d (omega (arith, budget-le cfg w.db.tables.jobs)) in
    (ends, λ more. drain_due-append cfg rounds more w ends)
