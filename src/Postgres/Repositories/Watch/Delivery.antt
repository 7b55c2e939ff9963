-- ===== src/Postgres/Repositories/Watch/Delivery.antt =====
-- What Watch promises: no wake-up is lost, and the goroutine ends when its connection does.
use order_sync.Base.{Bool, true, false, none, some, List, [], ◌∷◌, ◌≡◌, ◌≢◌, refl, ap, ◌∙◌, arith}
use order_sync.Contracts.{Error}
use order_sync.Postgres.Repositories.Watch.{
  Channel, Received, Phase, Listener, Happening, receive, receive_from, notify, fail_wait,
  run_deferred, new_listener, happen, follow_listener,
}

-- While the goroutine waits it has sent no error; it is never stuck; and past the deferred calls the channels
-- are closed and the connection is released.
record IsSound (l : Listener) : Type 0 where
  no_error : l.phase ≡ Phase.waiting → l.errors.buffer ≡ none
  not_stuck : l.phase ≢ Phase.stuck
  released_gone : l.phase ≡ Phase.gone → l.released ≡ true

fail_wait-IsSound :
    (l : Listener) (phase : Phase) (e : Error) (done : Bool)
    → l.phase ≡ phase
    → IsSound l
    → IsSound (fail_wait phase e done l)
fail_wait-IsSound l Phase.waiting e true same h = record {
  no_error = λ q. cc;
  not_stuck = λ q. cc;
  released_gone = λ q. cc;
}
fail_wait-IsSound l Phase.waiting e false same h =
    rw (h.no_error same)
      (record { no_error = λ q. cc; not_stuck = λ q. cc; released_gone = λ q. cc })
fail_wait-IsSound l Phase.closing_errors e done same h = h
fail_wait-IsSound l Phase.closing_wakeups e done same h = h
fail_wait-IsSound l Phase.releasing e done same h = h
fail_wait-IsSound l Phase.gone e done same h = h
fail_wait-IsSound l Phase.stuck e done same h = h

run_deferred-IsSound : (l : Listener) (phase : Phase) → IsSound l → IsSound (run_deferred phase l)
run_deferred-IsSound l Phase.waiting h = h
run_deferred-IsSound l Phase.closing_errors h = record {
  no_error = λ q. cc;
  not_stuck = λ q. cc;
  released_gone = λ q. cc;
}
run_deferred-IsSound l Phase.closing_wakeups h = record {
  no_error = λ q. cc;
  not_stuck = λ q. cc;
  released_gone = λ q. cc;
}
run_deferred-IsSound l Phase.releasing h = record {
  no_error = λ q. cc;
  not_stuck = λ q. cc;
  released_gone = λ q. refl;
}
run_deferred-IsSound l Phase.gone h = h
run_deferred-IsSound l Phase.stuck h = h

receive-none : {A : Type 0} (c : Channel A) → c.buffer ≡ none → (receive c).1.buffer ≡ none
receive-none c h = ap (λ b. (receive_from b c).1.buffer) h ∙ h

notify-IsSound : (l : Listener) (phase : Phase) → IsSound l → IsSound (notify phase l)
notify-IsSound l Phase.waiting h = record {
  no_error = h.no_error;
  not_stuck = h.not_stuck;
  released_gone = h.released_gone;
}
notify-IsSound l Phase.closing_errors h = h
notify-IsSound l Phase.closing_wakeups h = h
notify-IsSound l Phase.releasing h = h
notify-IsSound l Phase.gone h = h
notify-IsSound l Phase.stuck h = h

happen-IsSound : (x : Happening) (l : Listener) → IsSound l → IsSound (happen x l)
unfolding happen
happen-IsSound Happening.notification l h = notify-IsSound l l.phase h
happen-IsSound (Happening.wait_error e done) l h = fail_wait-IsSound l l.phase e done refl h
happen-IsSound Happening.deferred l h = run_deferred-IsSound l l.phase h
happen-IsSound Happening.takes_wakeup l h = record {
  no_error = h.no_error;
  not_stuck = h.not_stuck;
  released_gone = h.released_gone;
}
happen-IsSound Happening.takes_error l h = record {
  no_error = λ q. receive-none l.errors (h.no_error q);
  not_stuck = h.not_stuck;
  released_gone = h.released_gone;
}

follow_listener-IsSound :
    (xs : List Happening) (l : Listener) → IsSound l → IsSound (follow_listener xs l)
unfolding follow_listener
follow_listener-IsSound [] l h = h
follow_listener-IsSound (x ∷ xs) l h =
    follow_listener-IsSound xs (happen x l) (happen-IsSound x l h)

reached-IsSound : (xs : List Happening) → IsSound (follow_listener xs new_listener)
reached-IsSound xs =
    follow_listener-IsSound xs new_listener
      (record { no_error = λ q. refl; not_stuck = λ q. cc; released_gone = λ q. cc })

fails_once :
    (l : Listener) (e : Error)
    → l.phase ≡ Phase.waiting
    → l.errors.buffer ≡ none
    → let m =
        follow_listener
          (Happening.wait_error e false
            ∷ Happening.deferred
            ∷ Happening.deferred
            ∷ Happening.deferred
            ∷ [])
          l in
      (m.phase ≡ Phase.gone)
      × (m.released ≡ true)
      × ((receive m.errors).0 ≡ Received.value e)
      × ((receive (receive m.errors).1).0 ≡ Received.ended)
      × (m.wakeups ≡ record (l.wakeups) { closed = true })
unfolding follow_listener happen
fails_once l e waits empty = (ground arith, ground arith, ground arith, ground arith, ground arith)

-- Whatever has happened, where the goroutine waits: it is never stuck in a send, whatever comes; and when the
-- connection fails while the context is not done, it ends after its three deferred calls: the connection is
-- released, the error is received once and then the end of the channel, and the wake-up that may be there is
-- kept, with its channel closed.
pub listener_ends :
    (xs : List Happening) (e : Error)
    → (follow_listener xs new_listener).phase ≡ Phase.waiting
    → let l = follow_listener xs new_listener in
      let m =
        follow_listener
          (Happening.wait_error e false
            ∷ Happening.deferred
            ∷ Happening.deferred
            ∷ Happening.deferred
            ∷ [])
          l in
      ((ys : List Happening) → (follow_listener ys l).phase ≢ Phase.stuck)
      × (m.phase ≡ Phase.gone)
      × (m.released ≡ true)
      × ((receive m.errors).0 ≡ Received.value e)
      × ((receive (receive m.errors).1).0 ≡ Received.ended)
      × (m.wakeups ≡ record (l.wakeups) { closed = true })
listener_ends xs e waits =
    let l = follow_listener xs new_listener in
    let h = reached-IsSound xs in
    let (gone, released, error_once, then_ended, wakeups) =
      fails_once l e waits (h.no_error waits) in
    (
      λ ys. (follow_listener-IsSound ys l h).not_stuck,
      gone,
      released,
      error_once,
      then_ended,
      wakeups,
    )

abbrev pub takes_no_wakeup : Happening → Bool
takes_no_wakeup Happening.takes_wakeup = false
takes_no_wakeup _ = true

-- The worker has not received from `wakeups`.
abbrev pub TakesNone : List Happening → Type 0
TakesNone [] = Unit {0}
TakesNone (x ∷ xs) = (takes_no_wakeup x ≡ true) × TakesNone xs

keeps_wakeup :
    (x : Happening) (l : Listener)
    → takes_no_wakeup x ≡ true
    → l.wakeups.buffer ≡ some tt
    → (happen x l).wakeups.buffer ≡ some tt
unfolding happen
keeps_wakeup Happening.notification l kept h = ground arith
keeps_wakeup (Happening.wait_error e done) l kept h = ground arith
keeps_wakeup Happening.deferred l kept h = ground arith
keeps_wakeup Happening.takes_wakeup l kept h = cc
keeps_wakeup Happening.takes_error l kept h = h

follow-wakeup :
    (xs : List Happening) (l : Listener)
    → TakesNone xs
    → l.wakeups.buffer ≡ some tt
    → (receive (follow_listener xs l).wakeups).0 ≡ Received.value tt
unfolding follow_listener
follow-wakeup [] l kept h = rw h refl
follow-wakeup (x ∷ xs) l kept h = follow-wakeup xs (happen x l) kept.1 (keeps_wakeup x l kept.0 h)

notify-wakeup :
    (l : Listener)
    → l.phase ≡ Phase.waiting
    → (happen Happening.notification l).wakeups.buffer ≡ some tt
unfolding happen
notify-wakeup l waits = ground arith

-- No wake-up is lost: after a notification that the goroutine waits for, whatever happens except a receive
-- from `wakeups`, failures and the closing of the channels included, the next receive gives a wake-up.
-- However many notifications came before, they share it.
pub wakeup_not_lost :
    (before after : List Happening)
    → (follow_listener before new_listener).phase ≡ Phase.waiting
    → TakesNone after
    → (receive
        (follow_listener after
          (happen Happening.notification (follow_listener before new_listener))).wakeups).0
      ≡ Received.value tt
wakeup_not_lost before after waits kept =
    follow-wakeup after _ kept (notify-wakeup (follow_listener before new_listener) waits)
