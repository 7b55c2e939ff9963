-- ===== src/App/Lifecycle.antt =====
-- internal/app/lifecycle.go: the hooks that start and stop the process.
use mathlib.Core.Option
use order_sync.Base.{
  String, filter_rows, Bool, true, false, Option, none, some, List, [], ◌∷◌, ◌++◌, ◌≡◌, refl, ◌↔◌,
  ◌⊎◌, inl, inr, arith,
}
use order_sync.Contracts.{Error, Result}
use order_sync.Worker.Control.{Control, new_worker, start, stop}

-- Whether the server serves, whether the pool is open, and the worker, each `none` where it is nil.
pub record Process : Type 0 where
  pub server : Option Bool
  pub pool : Option Bool
  pub worker : Option Control

abbrev pub close_pool : Option Bool → Option Bool
close_pool none = none
close_pool (some open_pool) = some false

abbrev pub start_worker : Option Control → Option Control
start_worker none = none
start_worker (some c) = some (start c)

abbrev serve_on : Option Bool → Option Bool
serve_on none = none
serve_on (some serving) = some true

-- startHTTPServer, by what net.Listen gives. Serve goes on by itself. A nil server, on which the code
-- would panic, is left as it is.
unfoldable pub start_http_server : Result (Unit {0}) → Process → Result (Unit {0}) × Process
start_http_server (Result.err e) p = (Result.err (Error.wrap "listen on %s: %w" e), p)
start_http_server (Result.ok _) p = (Result.ok tt, record p { server = serve_on p.server })

abbrev pub after_listen : Result (Unit {0}) × Process → Result (Unit {0}) × Process
after_listen (Result.err e, p) =
    (Result.err (Error.wrap "start HTTP server: %w" e), record p { pool = close_pool p.pool })
after_listen (Result.ok _, p) = (Result.ok tt, record p { worker = start_worker p.worker })

-- OnStart, by what the migrator and net.Listen give.
unfoldable pub on_start :
    Result (Unit {0}) → Result (Unit {0}) → Process → Result (Unit {0}) × Process
unfolding start_http_server
on_start (Result.err e) listened p =
    (Result.err (Error.wrap "run database migrations: %w" e), record p { pool = close_pool p.pool })
on_start (Result.ok _) listened p = after_listen (start_http_server listened p)

-- The calls by which OnStop stops the process.
pub data StopCall : Type 0 where
  stop_call shutdown_call close_call : StopCall

-- What OnStop has reached: `stopErrors`, the calls made so far, and the process.
pub record Stopping : Type 0 where
  pub errors : List Error
  pub calls : List StopCall
  pub process : Process

abbrev add_error : String → Result (Unit {0}) → List Error → List Error
add_error format (Result.ok _) errors = errors
add_error format (Result.err e) errors = errors ++ (Error.wrap format e ∷ [])

-- `worker.Stop(ctx)`, unless the worker is nil.
abbrev pub stop_worker : Bool → Option Control → Stopping → Stopping
stop_worker ended none s = s
stop_worker ended (some c) s =
    let (r, c') = stop ended c in
    record {
      errors = add_error "stop SAP worker: %w" r s.errors;
      calls = s.calls ++ (StopCall.stop_call ∷ []);
      process = record (s.process) { worker = some c' };
    }

-- `server.Shutdown(ctx)`, unless the server is nil, by what it gives and whether the server serves then.
abbrev pub shutdown_server : Result (Unit {0}) × Bool → Option Bool → Stopping → Stopping
shutdown_server down none s = s
shutdown_server (r, serving) (some _) s = record {
  errors = add_error "shutdown HTTP server: %w" r s.errors;
  calls = s.calls ++ (StopCall.shutdown_call ∷ []);
  process = record (s.process) { server = some serving };
}

-- `pool.Close()`, unless the pool is nil.
abbrev pub close_stopped : Option Bool → Stopping → Stopping
close_stopped none s = s
close_stopped (some open_pool) s = record s {
  calls = s.calls ++ (StopCall.close_call ∷ []);
  process = record (s.process) { pool = close_pool (some open_pool) };
}

-- OnStop, by whether the worker's loop ends in time and by what Shutdown does; `errors` are those that
-- errors.Join takes.
unfoldable pub on_stop : Bool → Result (Unit {0}) × Bool → Process → Stopping
unfolding stop
on_stop ended down p =
    let begun : Stopping = record { errors = []; calls = []; process = p } in
    let worker_stopped = stop_worker ended p.worker begun in
    let server_down = shutdown_server down p.server worker_stopped in
    close_stopped p.pool server_down

abbrev pub new_process : Option Bool → Process
new_process pool = record { server = some false; pool = pool; worker = some new_worker }

-- Starting a process with a pool or none: it succeeds exactly when the migrations and the listening do;
-- then the server serves and one loop of the worker runs; otherwise nothing serves, the worker was not
-- started and the pool is closed.
on_start_cases :
    (migrated listened : Result (Unit {0})) (pool : Option Bool)
    → let (r, p) = on_start migrated listened (new_process pool) in
      ((r ≡ Result.ok tt) ↔ ((migrated ≡ Result.ok tt) × (listened ≡ Result.ok tt)))
      × ((p ≡ record { server = some true; pool = pool; worker = some (start new_worker) })
          ⊎ (((e : Error) × (r ≡ Result.err e)) × (p ≡ new_process (close_pool pool))))
unfolding on_start start_http_server
on_start_cases (Result.err e) listened pool =
    ((λ h. cc, λ (h, _). cc), inr ((Error.wrap "run database migrations: %w" e, refl), refl))
on_start_cases (Result.ok _) (Result.err e) pool = ((λ h. cc, λ (_, h). cc), inr ((_, refl), refl))
on_start_cases (Result.ok _) (Result.ok _) pool = ((λ h. (refl, refl), λ h. refl), inl refl)

-- What Stop of a worker gives, if there is one, and what Shutdown of a server gives, if there is one.
abbrev pub stop_answer : Bool → Option Control → Result (Unit {0})
stop_answer ended none = Result.ok tt
stop_answer ended (some c) = (stop ended c).0

abbrev pub shutdown_answer : Result (Unit {0}) → Option Bool → Result (Unit {0})
shutdown_answer r none = Result.ok tt
shutdown_answer r (some _) = r

abbrev is_some : {A : Type 0} → Option A → Bool
is_some none = false
is_some (some _) = true

-- Whether OnStop has something on which to make the call.
abbrev pub is_there : Process → StopCall → Bool
is_there p StopCall.stop_call = is_some p.worker
is_there p StopCall.shutdown_call = is_some p.server
is_there p StopCall.close_call = is_some p.pool

-- Stopping a process whose worker, server and pool may each be nil, whatever Stop and Shutdown give: the
-- calls are Stop, Shutdown and Close in this order, each made exactly on what is there, also after a failure.
-- The pool is closed, the server is as Shutdown leaves it, and a worker that was started is cancelled with no
-- loop more than before. No failure gives no error; else each failure is reported, wrapped, the worker's first.
pub on_stop_cases :
    (ended : Bool) (r : Result (Unit {0})) (serving : Bool) (p : Process)
    → let s = on_stop ended (r, serving) p in
      let stopped = stop_answer ended p.worker in
      let down = shutdown_answer r p.server in
      (s.calls
        ≡ filter_rows
            (is_there p)
            (StopCall.stop_call ∷ StopCall.shutdown_call ∷ StopCall.close_call ∷ []))
      × (s.process.pool ≡ Option.map (λ open_pool. false) p.pool)
      × (s.process.server ≡ Option.map (λ before. serving) p.server)
      × ((c : Control)
          → p.worker ≡ some c
          → c.started ≡ true
          → s.process.worker ≡ some (record c { cancelled = true }))
      × (stopped ≡ Result.ok tt → down ≡ Result.ok tt → s.errors ≡ [])
      × ((e : Error)
          → stopped ≡ Result.err e
          → down ≡ Result.ok tt
          → s.errors ≡ Error.wrap "stop SAP worker: %w" e ∷ [])
      × ((e : Error)
          → stopped ≡ Result.ok tt
          → down ≡ Result.err e
          → s.errors ≡ Error.wrap "shutdown HTTP server: %w" e ∷ [])
      × ((e f : Error)
          → stopped ≡ Result.err e
          → down ≡ Result.err f
          → s.errors
            ≡ Error.wrap "stop SAP worker: %w" e ∷ Error.wrap "shutdown HTTP server: %w" f ∷ [])
unfolding on_stop stop filter_rows
on_stop_cases ended r serving p = (
  ground arith,
  ground arith,
  ground arith,
  λ c here on. ground arith,
  λ h k. ground arith,
  λ e h k. ground arith,
  λ e h k. ground arith,
  λ e f h k. ground arith,
)
