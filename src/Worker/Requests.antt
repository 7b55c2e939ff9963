-- ===== src/Worker/Requests.antt =====
-- How many requests the worker sends to SAP for one job, over any calls of drainDue.
use mathlib.Core.List.{Memᴰ}
use order_sync.Base.{
  ◌≤◌, false, Option, none, some, List, [], ◌∷◌, ◌≡◌, refl, ap, inl, inr, arith, Bool-cases,
}
use order_sync.Config.{Config}
use order_sync.Contracts.{Result}
use order_sync.Postgres.Schema.{JobRow, Db}
use order_sync.Worker.Job.{Job, claim_due}
use order_sync.Worker.Claims.{is_claim, claim_due_nothing}
use order_sync.Worker.Retry.{max_total_attempts}
use order_sync.Worker.Deliver.{Round, World, deliver_claimed, drain_step, drain_due}
use order_sync.Worker.Attempts.{count, IsWithin, deliver-IsWithin, claim-IsReady}

drain_step-IsWithin :
    (cfg : Config) (round : Round) (w : World)
    → IsWithin cfg w.dispatches w.db.tables.jobs
    → let (w', more) = drain_step cfg round w in IsWithin cfg w'.dispatches w'.db.tables.jobs
unfolding drain_step
drain_step-IsWithin cfg round w h = claimed (claim_due round.locked round.env w.db).0 refl
  where
    s : Db
    s = (claim_due round.locked round.env w.db).1

    nothing :
        is_claim (claim_due round.locked round.env w.db).0 ≡ false
        → IsWithin cfg w.dispatches s.tables.jobs
    nothing e = rw (claim_due_nothing round.locked round.env w.db e) h

    claimed :
        (r : Result (Option Job))
        → (claim_due round.locked round.env w.db).0 ≡ r
        → let (w', more) = deliver_claimed cfg round (record w { db = s }) r in
          IsWithin cfg w'.dispatches w'.db.tables.jobs
    claimed (Result.err e) eq = nothing (ap is_claim eq)
    claimed (Result.ok none) eq = nothing (ap is_claim eq)
    claimed (Result.ok (some job)) eq =
        deliver-IsWithin cfg round job (record w { db = s }) (claim-IsReady cfg round w job h eq)

drain_due-IsWithin :
    (cfg : Config) (rounds : List Round) (w : World)
    → IsWithin cfg w.dispatches w.db.tables.jobs
    → IsWithin cfg (drain_due cfg rounds w).dispatches (drain_due cfg rounds w).db.tables.jobs
unfolding drain_due
drain_due-IsWithin cfg [] w h = h
drain_due-IsWithin cfg (round ∷ rounds) w h = elim (Bool-cases (drain_step cfg round w).1) [
  | inl more ↦
      rw more (
        drain_due-IsWithin cfg rounds (drain_step cfg round w).0
          (drain_step-IsWithin cfg round w h))
  | inr done ↦ rw done (drain_step-IsWithin cfg round w h)
]

-- Any number of calls of drainDue, one after another.
unfoldable pub drain_all : Config → List (List Round) → World → World
drain_all cfg [] w = w
drain_all cfg (rounds ∷ more) w = drain_all cfg more (drain_due cfg rounds w)

drain_all-IsWithin :
    (cfg : Config) (drains : List (List Round)) (w : World)
    → IsWithin cfg w.dispatches w.db.tables.jobs
    → IsWithin cfg (drain_all cfg drains w).dispatches (drain_all cfg drains w).db.tables.jobs
unfolding drain_all
drain_all-IsWithin cfg [] w h = h
drain_all-IsWithin cfg (rounds ∷ more) w h =
    drain_all-IsWithin cfg more (drain_due cfg rounds w) (drain_due-IsWithin cfg rounds w h)

-- Starting with no request sent, whatever jobs are stored, whichever statements fail, whatever SAP
-- answers and however the clocks move: after any calls of drainDue the worker has sent at most
-- maxTotalAttempts requests for each stored job, and at most as many as the attempts that its row counts.
pub requests_bounded :
    (cfg : Config) (drains : List (List Round)) (s : Db) (j : JobRow)
    → let w = drain_all cfg drains (record { db = s; dispatches = [] }) in
      Memᴰ j w.db.tables.jobs
      → (count j.id w.dispatches ≤ max_total_attempts cfg) × (count j.id w.dispatches ≤ j.attempts)
unfolding count
requests_bounded cfg drains s j m =
    let h = drain_all-IsWithin cfg drains (record { db = s; dispatches = [] }) (start cfg s) j m in
    (h.1, h.0)
  where
    start : (cfg : Config) (s : Db) → IsWithin cfg [] s.tables.jobs
    start cfg s k n = (omega arith, omega arith)
