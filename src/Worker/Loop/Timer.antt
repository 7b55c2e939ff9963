-- ===== src/Worker/Loop/Timer.antt =====
-- Until when a listening loop sleeps.
use order_sync.Base.{◌≤◌, true, false, Option, none, some, ◌≡◌, refl, ◌≢◌, ◌↔◌, arith}
use order_sync.Contracts.{Time}
use order_sync.Postgres.Queries.Jobs.{Candidate, claim_job, next_wake}
use order_sync.Postgres.Tx.{wrapping, statement, reads}
use order_sync.Worker.Job.{next_wake_at}
use order_sync.Worker.Loop.{Loop, Turn, arm, arm_timer, deref_time}
use order_sync.Worker.Wake.{claim_job_when_due}

arm_timer-deref_time : (wake : Option Time) → wake ≢ some 0 → arm_timer (deref_time wake) ≡ wake
unfolding arm_timer
arm_timer-deref_time none h = refl
arm_timer-deref_time (some w) h = ground (arith, h)

arm-listening :
    (turn : Turn) (l : Loop)
    → l.listening ≡ true
    → turn.env.fault l.world.db.calls ≡ false
    → (arm turn l).0 ≡ arm_timer (deref_time (next_wake l.world.db.tables))
unfolding arm next_wake_at wrapping statement reads
arm-listening turn l on sent = rw (on, sent) refl

-- In a turn of a listening loop whose NextWake does not fail, with no job due at the zero time and no row
-- held by another transaction: the timer is armed for an instant not after `t` exactly when ClaimJob would
-- find a job at `t`. So with no further notification the loop wakes for every job, and for nothing else.
pub timer_meets_claim :
    (turn : Turn) (l : Loop)
    → l.listening ≡ true
    → turn.env.fault l.world.db.calls ≡ false
    → next_wake l.world.db.tables ≢ some 0
    → (t : Time)
    → ((c : Candidate) × (claim_job t (λ id. false) l.world.db.tables ≡ some c))
      ↔ ((w : Time) × ((arm turn l).0 ≡ some w) × (w ≤ t))
timer_meets_claim turn l on sent later t = rw (arm-listening turn l on sent) (
    rw (arm_timer-deref_time (next_wake l.world.db.tables) later)
      (claim_job_when_due t l.world.db.tables))
