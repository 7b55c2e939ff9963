-- ===== src/Worker/Control.antt =====
-- Start and Stop of internal/sync/worker.go. `stateMu` makes each of the two one step.
use order_sync.Base.{
  ℕ, suc, Bool, true, false, List, [], ◌∷◌, ◌≡◌, refl, ap, ◌∙◌, arith, if◌then◌else◌,
}
use order_sync.Contracts.{Error, Result}

-- The fields that Start sets: `started`, and with it `cancel` and `done`; the loops that were launched, and
-- whether their context is cancelled.
pub record Control : Type 0 where
  pub started : Bool
  pub loops : ℕ
  pub cancelled : Bool

-- NewWorker.
abbrev pub new_worker : Control
new_worker = record { started = false; loops = 0; cancelled = false }

-- Start.
unfoldable pub start : Control → Control
start c = if c.started then c else record { started = true; loops = suc c.loops; cancelled = false }

-- Stop, by whether the loop ends before the context given does.
unfoldable pub stop : Bool → Control → Result (Unit {0}) × Control
stop ended c =
    if c.started
    then (
      (if ended then Result.ok tt else Result.err (Error.message "context deadline exceeded")),
      record c { cancelled = true },
    )
    else (Result.ok tt, c)

pub data Call : Type 0 where
  start_call : Call
  stop_call : Bool → Call

abbrev pub call : Call → Control → Control
call Call.start_call c = start c
call (Call.stop_call ended) c = (stop ended c).1

unfoldable pub calls : List Call → Control → Control
calls [] c = c
calls (x ∷ xs) c = calls xs (call x c)

-- The number of loops goes with `started`, and only a started worker is cancelled.
record IsSingle (c : Control) : Type 0 where
  counted : c.loops ≡ (if c.started then 1 else 0)
  cancelled_started : c.cancelled ≡ true → c.started ≡ true

call-IsSingle : (x : Call) (c : Control) → IsSingle c → IsSingle (call x c)
unfolding start stop
call-IsSingle Call.start_call c h = ground arith
call-IsSingle (Call.stop_call ended) c h = ground arith

calls-IsSingle : (xs : List Call) (c : Control) → IsSingle c → IsSingle (calls xs c)
unfolding calls
calls-IsSingle [] c h = h
calls-IsSingle (x ∷ xs) c h = calls-IsSingle xs (call x c) (call-IsSingle x c h)

abbrev stopped : ℕ → Control
stopped n = record { started = true; loops = n; cancelled = true }

calls-stopped : (xs : List Call) (n : ℕ) → calls xs (stopped n) ≡ stopped n
unfolding calls start stop
calls-stopped [] n = refl
calls-stopped (Call.start_call ∷ xs) n = calls-stopped xs n
calls-stopped (Call.stop_call ended ∷ xs) n = calls-stopped xs n

stop-started : (ended : Bool) (c : Control) → c.started ≡ true → (stop ended c).1 ≡ stopped c.loops
unfolding stop
stop-started ended c h = ground arith

-- However Start and Stop are called: at most one loop is ever launched, and exactly one if the worker was
-- started; and once a started worker is stopped, its context stays cancelled and no further call launches
-- a loop.
pub one_loop :
    (xs ys : List Call) (ended : Bool)
    → let c = calls xs new_worker in
      (c.loops ≡ (if c.started then 1 else 0))
      × (c.started ≡ true
          → calls ys (stop ended c).1 ≡ record { started = true; loops = 1; cancelled = true })
one_loop xs ys ended = (single.counted, after_stop)
  where
    single : IsSingle (calls xs new_worker)
    single = calls-IsSingle xs new_worker (record { counted = refl; cancelled_started = λ h. cc })

    after_stop :
        (calls xs new_worker).started ≡ true
        → calls ys (stop ended (calls xs new_worker)).1
          ≡ record { started = true; loops = 1; cancelled = true }
    after_stop h =
        ap (calls ys) (stop-started ended (calls xs new_worker) h)
        ∙ calls-stopped ys (calls xs new_worker).loops
        ∙ ap stopped (single.counted ∙ rw h refl)
