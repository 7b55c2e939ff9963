-- ===== src/Worker/Loop/Reconnect.antt =====
-- The listener's reconnects: how long the worker waits for them, and what it does not do meanwhile.
use order_sync.Base.{
  ℕ, ◌*◌, ◌^◌, ◌≤◌, ◌<◌, min, max, Bool, true, false, some, List, [], ◌∷◌, ◌≡◌, refl, ap, ◌≢◌, sym,
  ◌∙◌, subst, arith, Option, none, Bool-cases, inl, inr,
}
use order_sync.Base.Int.{ℤ, pos, ◌*ℤ◌, wrap_64}
use order_sync.Config.{Config}
use order_sync.Worker.Deliver.{Round, World}
use order_sync.Worker.Loop.{
  Loop, Event, Turn, drain, backed_off, reconnect, select, arm, turn_once, begin_loop, can_meet,
  follow, follow-cons, turn_met, fire,
}
use order_sync.Worker.Retry.{listener_reconnect_max_delay}

abbrev min_delay : ℕ
min_delay = 250 * 10 ^ 6

abbrev delay_of : Option Loop → ℤ
delay_of none = pos 0
delay_of (some l) = l.reconnect_delay

-- The loop after the timer is armed.
abbrev armed : Turn → Loop → Loop
armed turn l = record l { world = (arm turn l).1 }

turn_met-select :
    (cfg : Config) (turn : Turn) (l k : Loop)
    → turn_met cfg turn l ≡ some k
    → (can_meet turn l turn.event ≡ true) × (select cfg turn.event (armed turn l) ≡ some k)
unfolding turn_once
turn_met-select cfg turn l k e = elim (Bool-cases (can_meet turn l turn.event)) [
  | inl met ↦ (met, rw met at e)
  | inr unmet ↦ absurd (none-ne-some k (rw unmet at e))
]
  where
    none-ne-some : (x : Loop) → none ≢ some x
    none-ne-some x h = cc h

module _ (cfg : Config) (n : ℕ) (limit : listener_reconnect_max_delay cfg ≡ pos n)
    (fits : n < 2 ^ 62) where
  abbrev pub IsBackoff : ℤ → Type 0
  IsBackoff delay = (d : ℕ) × (delay ≡ pos d) × (min n min_delay ≤ d) × (d ≤ max n min_delay)

  backed_off-IsBackoff : (delay : ℤ) → IsBackoff delay → IsBackoff (backed_off cfg delay)
  unfolding backed_off wrap_64 ◌*ℤ◌
  backed_off-IsBackoff delay (d, same, low, high) =
      (min n (d * 2), rw (same, limit) (ground arith), omega arith, omega arith)

  drain-keeps_delay :
      (rounds : List Round) (l : Loop) → (drain cfg rounds l).reconnect_delay ≡ l.reconnect_delay
  drain-keeps_delay rounds l = ground arith

  reconnect-IsBackoff :
      (watched : Bool) (l : Loop)
      → IsBackoff l.reconnect_delay
      → IsBackoff (reconnect cfg watched l).reconnect_delay
  reconnect-IsBackoff true l h = (min_delay, refl, omega arith, omega arith)
  reconnect-IsBackoff false l h = backed_off-IsBackoff l.reconnect_delay h

  fire-IsBackoff :
      (listening watched : Bool) (rounds : List Round) (l : Loop)
      → IsBackoff l.reconnect_delay
      → IsBackoff (fire cfg listening watched rounds l).reconnect_delay
  fire-IsBackoff true watched rounds l h = subst IsBackoff (sym (drain-keeps_delay rounds l)) h
  fire-IsBackoff false watched rounds l h = reconnect-IsBackoff watched l h

  select-IsBackoff :
      (event : Event) (l m : Loop)
      → IsBackoff l.reconnect_delay
      → select cfg event l ≡ some m
      → IsBackoff m.reconnect_delay
  unfolding select
  select-IsBackoff Event.stopped l m h e = cc
  select-IsBackoff (Event.notified rounds) l m h e =
      subst IsBackoff (sym (drain-keeps_delay rounds l) ∙ ap delay_of e) h
  select-IsBackoff Event.wakeups_closed l m h e = subst IsBackoff (ap delay_of e) h
  select-IsBackoff Event.listener_failed l m h e = subst IsBackoff (ap delay_of e) h
  select-IsBackoff (Event.timer_fired watched rounds) l m h e =
      subst IsBackoff (ap delay_of e) (fire-IsBackoff l.listening watched rounds l h)

  follow-IsBackoff :
      (turns : List Turn) (l m : Loop)
      → IsBackoff l.reconnect_delay
      → follow cfg turns l ≡ some m
      → IsBackoff m.reconnect_delay
  unfolding follow turn_once
  follow-IsBackoff [] l m h e = subst IsBackoff (ap delay_of e) h
  follow-IsBackoff (turn ∷ turns) l m h e =
      let (k, met, rest) = follow-cons cfg turn turns l m e in
      follow-IsBackoff turns k m
        (select-IsBackoff turn.event (armed turn l) k h (turn_met-select cfg turn l k met).1) rest

-- For a limit of `n` nanoseconds, not negative and below 2 ^ 62: over any turns of the loop the delay before
-- the next reconnect stays between 250 ms and the limit, whichever is more and whichever is less.
pub reconnect_delay_bounds :
    (cfg : Config) (n : ℕ)
    → listener_reconnect_max_delay cfg ≡ pos n
    → n < 2 ^ 62
    → (watched : Bool) (rounds : List Round) (w : World) (turns : List Turn) (m : Loop)
    → follow cfg turns (begin_loop cfg watched rounds w) ≡ some m
    → (d : ℕ) × (m.reconnect_delay ≡ pos d)
      × (min n (250 * 10 ^ 6) ≤ d)
      × (d ≤ max n (250 * 10 ^ 6))
unfolding begin_loop
reconnect_delay_bounds cfg n limit fits watched rounds w turns m e =
    follow-IsBackoff cfg n limit fits turns (begin_loop cfg watched rounds w) m
      (min_delay, refl, omega arith, omega arith) e

abbrev pub watch_fails : Event → Bool
watch_fails (Event.timer_fired true _) = false
watch_fails _ = true

-- No turn brings a listener back.
abbrev pub WatchFails : List Turn → Type 0
WatchFails [] = Unit {0}
WatchFails (turn ∷ turns) = (watch_fails turn.event ≡ true) × WatchFails turns

module _ (cfg : Config) where
  select-deaf :
      (turn : Turn) (event : Event) (l k : Loop)
      → l.listening ≡ false
      → watch_fails event ≡ true
      → can_meet turn l event ≡ true
      → select cfg event (armed turn l) ≡ some k
      → (k.listening ≡ false) × (k.world ≡ l.world)
  unfolding select arm
  select-deaf turn Event.stopped l k off fails met e = cc
  select-deaf turn (Event.notified rounds) l k off fails met e = cc
  select-deaf turn Event.wakeups_closed l k off fails met e = cc
  select-deaf turn Event.listener_failed l k off fails met e = cc
  select-deaf turn (Event.timer_fired true rounds) l k off fails met e = cc
  select-deaf turn (Event.timer_fired false rounds) l k off fails met e = ground arith

-- A loop without a listener, while Watch fails: over any turns that it goes on, nothing is claimed or
-- delivered, whatever jobs are due. The jobs and the requests sent stay as they were.
pub deaf_loop_drains_nothing :
    (cfg : Config) (turns : List Turn) (l m : Loop)
    → l.listening ≡ false
    → WatchFails turns
    → follow cfg turns l ≡ some m
    → (m.listening ≡ false) × (m.world ≡ l.world)
unfolding follow
deaf_loop_drains_nothing cfg [] l m off fails e = ground arith
deaf_loop_drains_nothing cfg (turn ∷ turns) l m off fails e =
    let (k, met, rest) = follow-cons cfg turn turns l m e in
    let (can, selected) = turn_met-select cfg turn l k met in
    let (still, same) = select-deaf cfg turn turn.event l k off fails.0 can selected in
    let (off', same') = deaf_loop_drains_nothing cfg turns k m still fails.1 rest in
    (off', same' ∙ same)
