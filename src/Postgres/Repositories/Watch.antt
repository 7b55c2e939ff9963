-- ===== src/Postgres/Repositories/Watch.antt =====
-- Watch of sync_job_repository.go: the LISTEN connection, the goroutine behind the two channels, and what
-- the worker receives from them. A channel has a buffer for one value, as both of Watch's have.
pub mod Delivery
use order_sync.Base.{
  ℕ, Bool, true, false, Option, none, some, List, [], ◌∷◌, ◌++◌, ◌≡◌, ◌≢◌, refl, ap, ◌∙◌, arith,
  if◌then◌else◌,
}
use order_sync.Contracts.{Error, Result}

pub record Channel (A : Type 0) : Type 0 where
  pub buffer : Option A
  pub closed : Bool

-- What `<-c` gives: a value, the end of a closed channel, or nothing yet.
pub data Received (A : Type 0) : Type 0 where
  value : A → Received A
  ended : Received A
  blocks : Received A

pub data Sent (A : Type 0) : Type 0 where
  stored : Channel A → Sent A
  full : Sent A

abbrev pub send : {A : Type 0} → A → Channel A → Sent A
send a c = elim c.buffer [ none ↦ Sent.stored (record c { buffer = some a }) | some _ ↦ Sent.full ]

-- A closed channel still gives the value that it holds.
abbrev pub receive_from : {A : Type 0} → Option A → Channel A → Received A × Channel A
receive_from (some a) c = (Received.value a, record c { buffer = none })
receive_from none c = ((if c.closed then Received.ended else Received.blocks), c)

abbrev pub receive : {A : Type 0} → Channel A → Received A × Channel A
receive c = receive_from c.buffer c

-- Where the goroutine is: in WaitForNotification, at one of its deferred calls, gone, or stuck in a send.
pub data Phase : Type 0 where
  waiting closing_errors closing_wakeups releasing gone stuck : Phase

pub record Listener : Type 0 where
  pub wakeups : Channel (Unit {0})
  pub errors : Channel Error
  pub phase : Phase
  pub released : Bool

abbrev pub new_listener : Listener
new_listener = record {
  wakeups = record { buffer = none; closed = false };
  errors = record { buffer = none; closed = false };
  phase = Phase.waiting;
  released = false;
}

-- The connection of the pool.
pub data Connection : Type 0 where
  not_acquired held returned : Connection

-- Watch, by whether there is a pool, what Acquire gives and what LISTEN gives.
unfoldable pub watch : Bool → Result (Unit {0}) → Result (Unit {0}) → Result Listener × Connection
watch false acquired listened =
    (Result.err (Error.message "sync job listener is not configured"), Connection.not_acquired)
watch true (Result.err e) listened =
    (Result.err (Error.wrap "acquire sync job listener connection: %w" e), Connection.not_acquired)
watch true (Result.ok _) (Result.err e) =
    (Result.err (Error.wrap "listen for sync job changes: %w" e), Connection.returned)
watch true (Result.ok _) (Result.ok _) = (Result.ok new_listener, Connection.held)

-- The `select` with a default.
abbrev pub try_send : {A : Type 0} → A → Channel A → Channel A
try_send a c = elim (send a c) [ Sent.stored c' ↦ c' | Sent.full ↦ c ]

-- `listenerErrors <- waitErr`, after which the goroutine returns.
abbrev pub after_send : Listener → Sent Error → Listener
after_send l (Sent.stored c) = record l { errors = c; phase = Phase.closing_errors }
after_send l Sent.full = record l { phase = Phase.stuck }

-- What happens next: the connection gives a notification or an error (with whether the context is done), the
-- goroutine goes on with a deferred call, or the worker receives from a channel.
pub data Happening : Type 0 where
  notification : Happening
  wait_error : Error → Bool → Happening
  deferred : Happening
  takes_wakeup takes_error : Happening

abbrev pub notify : Phase → Listener → Listener
notify Phase.waiting l = record l { wakeups = try_send tt l.wakeups }
notify _ l = l

abbrev pub fail_wait : Phase → Error → Bool → Listener → Listener
fail_wait Phase.waiting e true l = record l { phase = Phase.closing_errors }
fail_wait Phase.waiting e false l = after_send l (send e l.errors)
fail_wait _ e done l = l

-- The deferred calls, the last one first.
abbrev pub run_deferred : Phase → Listener → Listener
run_deferred Phase.closing_errors l = record l {
  errors = record (l.errors) { closed = true };
  phase = Phase.closing_wakeups;
}
run_deferred Phase.closing_wakeups l = record l {
  wakeups = record (l.wakeups) { closed = true };
  phase = Phase.releasing;
}
run_deferred Phase.releasing l = record l { released = true; phase = Phase.gone }
run_deferred _ l = l

unfoldable pub happen : Happening → Listener → Listener
happen Happening.notification l = notify l.phase l
happen (Happening.wait_error e done) l = fail_wait l.phase e done l
happen Happening.deferred l = run_deferred l.phase l
happen Happening.takes_wakeup l = record l { wakeups = (receive l.wakeups).1 }
happen Happening.takes_error l = record l { errors = (receive l.errors).1 }

unfoldable pub follow_listener : List Happening → Listener → Listener
unfolding happen
follow_listener [] l = l
follow_listener (x ∷ xs) l = follow_listener xs (happen x l)
