-- ===== src/Worker/Loop.antt =====
-- `loop`, `armTimer` and `derefTime` of internal/sync/worker.go. The two channels of Watch are set and
-- dropped together, so one flag stands for both; a turn of the `for` takes what it meets from outside.

pub mod Timer
pub mod Reconnect
use order_sync.Base.{
  ℕ, ◌+◌, ◌*◌, ◌-◌, ◌^◌, Bool, true, false, Option, none, some, List, [], ◌∷◌, ◌==◌, leb, ◌≡◌, refl,
  if◌then◌else◌,
}
use order_sync.Base.Int.{ℤ, pos, negsuc, pos_part, neg_part, ltb_ℤ, ◌*ℤ◌, wrap_64}
use order_sync.Config.{Config}
use order_sync.Contracts.{Result, Time}
use order_sync.Postgres.Schema.{Db, Env}
use order_sync.Worker.Deliver.{Round, World, drain_due}
use order_sync.Worker.Job.{next_wake_at}
use order_sync.Worker.Retry.{listener_reconnect_max_delay}

abbrev pub listener_reconnect_min_delay : ℤ
listener_reconnect_min_delay = pos (250 * 10 ^ 6)

-- The variables of `loop`: whether `wakeups` and `listenerErrors` are set, `reconnectDelay`, and the
-- flag `running` of the worker.
pub record Loop : Type 0 where
  pub listening : Bool
  pub reconnect_delay : ℤ
  pub running : Bool
  pub world : World

-- What the `select` of a turn meets. A turn whose timer fires meets the answer of Watch where there is no
-- listener.
pub data Event : Type 0 where
  -- `<-ctx.Done()`
  stopped : Event
  -- a value of `wakeups`, and the rounds that drainDue meets
  notified : List Round → Event
  wakeups_closed : Event
  -- a value of `listenerErrors`, or its end
  listener_failed : Event
  -- `<-timerC`: whether Watch succeeds, and the rounds that drainDue meets
  timer_fired : Bool → List Round → Event

-- `now` is the worker's clock when the timer is armed, `woken` when the `select` is left.
pub record Turn : Type 0 where
  pub now : Time
  pub woken : Time
  pub env : Env
  pub event : Event

-- `t.Add(d)`; no clock is that near to the zero time.
abbrev pub add_delay : Time → ℤ → Time
add_delay t d = t + pos_part d - neg_part d

-- derefTime. The zero time is 0.
abbrev pub deref_time : Option Time → Time
deref_time none = 0
deref_time (some t) = t

-- armTimer: `none` is the nil channel; an armed timer fires at the instant, or at once if it is past.
unfoldable pub arm_timer : Time → Option Time
arm_timer wake_at = if wake_at == 0 then none else some wake_at

-- drainDue as a whole, with its flag.
abbrev pub drain : Config → List Round → Loop → Loop
drain cfg rounds l =
    if l.running then l else record l { running = false; world = drain_due cfg rounds l.world }

-- The wake-up by what NextWake gives.
abbrev pub wake_at : Turn → Loop → Result (Option Time) → Time
wake_at turn l (Result.ok next_wake) = deref_time next_wake
wake_at turn l (Result.err e) = add_delay turn.now l.reconnect_delay

-- The head of a turn: the timer, and the world after NextWake.
unfoldable pub arm : Turn → Loop → Option Time × World
unfolding arm_timer
arm turn l =
    let (r, s) = next_wake_at turn.env l.world.db in
    if l.listening
    then (arm_timer (wake_at turn l r), record (l.world) { db = s })
    else (arm_timer (add_delay turn.now l.reconnect_delay), l.world)

-- `reconnectDelay *= 2`, an int64 that may wrap around, and its limit.
unfoldable pub backed_off : Config → ℤ → ℤ
backed_off cfg delay =
    let doubled = wrap_64 (delay *ℤ pos 2) in
    if ltb_ℤ (listener_reconnect_max_delay cfg) doubled
    then listener_reconnect_max_delay cfg
    else doubled

abbrev pub reconnect : Config → Bool → Loop → Loop
reconnect cfg true l = record l { listening = true; reconnect_delay = listener_reconnect_min_delay }
reconnect cfg false l = record l {
  listening = false;
  reconnect_delay = backed_off cfg l.reconnect_delay;
}

-- `case <-timerC`, by whether the channels are set.
abbrev pub fire : Config → Bool → Bool → List Round → Loop → Loop
fire cfg true watched rounds l = drain cfg rounds l
fire cfg false watched rounds l = reconnect cfg watched l

-- The cases of the `select`; `none` is the return.
unfoldable pub select : Config → Event → Loop → Option Loop
unfolding backed_off
select cfg Event.stopped l = none
select cfg (Event.notified rounds) l = some (drain cfg rounds l)
select cfg Event.wakeups_closed l = some (record l { listening = false })
select cfg Event.listener_failed l = some (record l { listening = false })
select cfg (Event.timer_fired watched rounds) l = some (fire cfg l.listening watched rounds l)

-- Which events a turn can meet: the two channels give values only while they are set, and the timer only
-- where it is armed, at its instant or later.
abbrev pub fired_by : Time → Option Time → Bool
fired_by now none = false
fired_by now (some w) = leb w now

abbrev pub can_meet : Turn → Loop → Event → Bool
can_meet turn l Event.stopped = true
can_meet turn l (Event.notified _) = l.listening
can_meet turn l Event.wakeups_closed = l.listening
can_meet turn l Event.listener_failed = l.listening
can_meet turn l (Event.timer_fired _ _) = fired_by turn.woken (arm turn l).0

-- One turn of the `for`.
unfoldable pub turn_once : Config → Turn → Loop → Option Loop
unfolding arm select
turn_once cfg turn l = select cfg turn.event (record l { world = (arm turn l).1 })

-- The loop before the first turn: Watch, whose answer is given, and drainDue.
unfoldable pub begin_loop : Config → Bool → List Round → World → Loop
begin_loop cfg watched rounds w = drain cfg rounds (record {
  listening = watched;
  reconnect_delay = listener_reconnect_min_delay;
  running = false;
  world = w;
})

abbrev pub turn_met : Config → Turn → Loop → Option Loop
turn_met cfg turn l = if can_meet turn l turn.event then turn_once cfg turn l else none

-- Some turns of the loop, for events that it can meet; `none` also when the loop has returned.
unfoldable pub follow : Config → List Turn → Loop → Option Loop
unfolding turn_once
follow cfg [] l = some l
follow cfg (turn ∷ turns) l = elim (turn_met cfg turn l) [
  | none ↦ none
  | some l' ↦ follow cfg turns l'
]

pub follow-cons :
    (cfg : Config) (turn : Turn) (turns : List Turn) (l m : Loop)
    → follow cfg (turn ∷ turns) l ≡ some m
    → (k : Loop) × (turn_met cfg turn l ≡ some k) × (follow cfg turns k ≡ some m)
unfolding follow
follow-cons cfg turn turns l m e = by_turn (turn_met cfg turn l) refl e
  where
    by_turn :
        (o : Option Loop)
        → turn_met cfg turn l ≡ o
        → elim o [ none ↦ none | some k ↦ follow cfg turns k ] ≡ some m
        → (k : Loop) × (turn_met cfg turn l ≡ some k) × (follow cfg turns k ≡ some m)
    by_turn none same h = cc
    by_turn (some k) same h = (k, same, h)
