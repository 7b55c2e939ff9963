-- ===== src/Tests/Loop.antt =====
-- The worker's loop without and with a listener, and its drain.
use order_sync.Base.{
  ◌*◌, ◌^◌, ◌≤◌, min, max, true, false, some, List, [], ◌∷◌, ◌++◌, ◌≡◌, ◌≢◌, refl, ◌↔◌, arith,
  find_row, if◌then◌else◌, ℕ,
}
use order_sync.Base.Int.{pos, ◌*ℤ◌, wrap_64}
use order_sync.Contracts.{Time}
use order_sync.Postgres.Queries.Jobs.{Candidate, claim_job, next_wake, next_wake_from}
use order_sync.Worker.Control.{Call, new_worker, calls, stop, one_loop}
use order_sync.Worker.Deliver.{Round, World, drain_due}
use order_sync.Worker.Finish.{AllSent, drain_ends, drain_due_ends}
use order_sync.Worker.Loop.{
  Loop, Event, Turn, backed_off, select, arm, arm_timer, turn_once, begin_loop, follow,
}
use order_sync.Worker.Loop.Reconnect.{reconnect_delay_bounds, deaf_loop_drains_nothing}
use order_sync.Worker.Loop.Timer.{timer_meets_claim}
use order_sync.Worker.Retry.{listener_reconnect_max_delay, max_total_attempts}
use order_sync.Worker.Wake.{claim_job_when_due}
use order_sync.Tests.Data.{cfg, env_at}
use order_sync.Tests.Worker.{job_db, unavailable}

claim_job_when_due_example :
    ((c : Candidate) × (claim_job 1000 (λ id. false) job_db.tables ≡ some c))
    ↔ ((w : Time) × (next_wake job_db.tables ≡ some w) × (w ≤ 1000))
claim_job_when_due_example = claim_job_when_due 1000 job_db.tables

abbrev world : World
world = record { db = job_db; dispatches = [] }

-- Two reconnects that fail, long after the job was due.
abbrev deaf_turns : List Turn
deaf_turns =
    record { now = 1000; woken = 250001000; env = env_at 1000; event = Event.timer_fired false [] }
    ∷ record {
      now = 250001000;
      woken = 800000000;
      env = env_at 250001000;
      event = Event.timer_fired false [];
    }
    ∷ []

abbrev deaf : ℕ → Loop
deaf delay = record {
  listening = false;
  reconnect_delay = pos delay;
  running = false;
  world = world;
}

limit_second : listener_reconnect_max_delay cfg ≡ pos 1000000000
unfolding listener_reconnect_max_delay wrap_64 ◌*ℤ◌
limit_second = refl

deaf_follows : follow cfg deaf_turns (deaf 250000000) ≡ some (deaf 1000000000)
unfolding follow turn_once select backed_off arm arm_timer listener_reconnect_max_delay wrap_64 ◌*ℤ◌
deaf_follows = refl

begins_deaf : follow cfg deaf_turns (begin_loop cfg false [] world) ≡ some (deaf 1000000000)
unfolding begin_loop drain_due
begins_deaf = deaf_follows

reconnect_delay_bounds_example :
    (d : ℕ) × ((deaf 1000000000).reconnect_delay ≡ pos d)
    × (min 1000000000 (250 * 10 ^ 6) ≤ d)
    × (d ≤ max 1000000000 (250 * 10 ^ 6))
reconnect_delay_bounds_example =
    reconnect_delay_bounds cfg 1000000000 limit_second (omega arith) false [] world deaf_turns
      (deaf 1000000000) begins_deaf

deaf_loop_drains_nothing_example :
    ((deaf 1000000000).listening ≡ false) × ((deaf 1000000000).world ≡ (deaf 250000000).world)
deaf_loop_drains_nothing_example =
    deaf_loop_drains_nothing cfg deaf_turns (deaf 250000000) (deaf 1000000000) refl
      (refl, (refl, tt)) deaf_follows

abbrev hearing : Loop
hearing = record (deaf 250000000) { listening = true }

abbrev first_turn : Turn
first_turn = record { now = 100; woken = 900; env = env_at 100; event = Event.timer_fired true [] }

wakes_later : next_wake job_db.tables ≢ some 0
unfolding next_wake next_wake_from find_row
wakes_later h = cc h

timer_meets_claim_example :
    ((c : Candidate) × (claim_job 1000 (λ id. false) job_db.tables ≡ some c))
    ↔ ((w : Time) × ((arm first_turn hearing).0 ≡ some w) × (w ≤ 1000))
timer_meets_claim_example = timer_meets_claim first_turn hearing refl refl wakes_later 1000

abbrev seven_rounds : List Round
seven_rounds =
    unavailable ∷ unavailable ∷ unavailable ∷ unavailable ∷ unavailable ∷ unavailable ∷ unavailable
    ∷ []

max_attempts_5 : max_total_attempts cfg ≡ 5
unfolding max_total_attempts
max_attempts_5 = refl

sent : (n : ℕ) → unavailable.env.fault n ≡ false
sent n = refl

all_sent : AllSent seven_rounds
all_sent = (sent, (sent, (sent, (sent, (sent, (sent, (sent, tt)))))))

drain_due_ends_example :
    (drain_ends cfg seven_rounds world ≡ true)
    × ((more : List Round)
        → drain_due cfg (seven_rounds ++ more) world ≡ drain_due cfg seven_rounds world)
unfolding find_row
drain_due_ends_example =
    drain_due_ends cfg seven_rounds world all_sent (refl, tt) (omega (arith, max_attempts_5))

one_loop_example :
    let c = calls (Call.start_call ∷ Call.start_call ∷ []) new_worker in
    (c.loops ≡ (if c.started then 1 else 0))
    × (c.started ≡ true
        → calls (Call.start_call ∷ []) (stop false c).1
          ≡ record { started = true; loops = 1; cancelled = true })
one_loop_example = one_loop (Call.start_call ∷ Call.start_call ∷ []) (Call.start_call ∷ []) false
