-- ===== src/Tests/Operations.antt =====
-- The operator's replay of a DEAD job, and the start and stop of the process.
use order_sync.Base.{
  String, ℕ, ◌≤◌, ◌==◌, not, arith, Bool, true, false, none, some, [], ◌∷◌, ◌≡◌, ◌≢◌, refl, ◌⊎◌,
  find_row, filter_rows, text_eq, is_empty,
}
use order_sync.Base.Int.{pos}
use order_sync.Contracts.{Error, Result, SyncStatus}
use order_sync.Postgres.Queries.Jobs.{Candidate, has_job_id, claim_key, claim_job}
use order_sync.Postgres.Schema.{JobRow, Db}
use order_sync.Admin.{
  Machine, count_rows, replay_update, replay_dead_job, replay_job_id, parse_command, main,
}
use order_sync.Postgres.Tx.{pure, ◌>>=◌, wrapping, statement}
use order_sync.Admin.Replay.{replay_only_dead, replay-claim_job}
use order_sync.App.Lifecycle.{
  Process, StopCall, on_stop, stop_answer, shutdown_answer, on_stop_cases,
}
use order_sync.Worker.Control.{Control, new_worker, start}
use order_sync.Admin.{verify_schema}
use order_sync.Admin.Migrate.{migrate-verify_schema}
use order_sync.Admin.Seeding.{AreDistinct}
use order_sync.Postgres.Migration.{is_sku, migrate}
use order_sync.Postgres.Schema.{SkuRow}
use order_sync.Postgres.Tx.{◌>>◌}
use order_sync.Tests.Data.{env_at, empty_db, empty_tables}
use order_sync.Tests.Worker.{paid_order, due_job, job_db}

abbrev dead_job : JobRow
dead_job = record due_job { status = SyncStatus.dead; attempts = 5; last_error = some "HTTP 400" }

abbrev dead_db : Db
dead_db = record job_db { tables = record (job_db.tables) { jobs = dead_job ∷ [] } }

replay_only_dead_example :
    let (r, s') = replay_dead_job 1 (env_at 2000) dead_db in
    ((j : JobRow) × (find_row (has_job_id 1) dead_db.tables.jobs ≡ some j)
      × (j.status ≡ SyncStatus.dead)
      × (r ≡ Result.ok tt)
      × (find_row (has_job_id 1) s'.tables.jobs
          ≡ some (record {
            id = j.id;
            order_id = j.order_id;
            status = SyncStatus.pending;
            due_at = 2000;
            attempts = 0;
            locked_at = none;
            waiting_since = none;
            last_error = none;
            sap_internal_id = none;
            synced_at = none;
          }))
      × (s'.tables ≡ record (dead_db.tables) { jobs = s'.tables.jobs })
      × ((x : ℕ)
          → x ≢ 1
          → find_row (has_job_id x) s'.tables.jobs ≡ find_row (has_job_id x) dead_db.tables.jobs))
    ⊎ (((j : JobRow)
          → find_row (has_job_id 1) dead_db.tables.jobs ≡ some j
          → j.status ≢ SyncStatus.dead)
        × ((e : Error) × (r ≡ Result.err e))
        × (s'.tables ≡ dead_db.tables))
unfolding find_row
replay_only_dead_example = replay_only_dead 1 (env_at 2000) dead_db refl (refl, tt)

replay-claim_job_example :
    let t = (replay_dead_job 1 (env_at 2000) dead_db).1.tables in
    ((k : JobRow) × (claim_job 2500 (λ x. not (x == 1)) t ≡ some (paid_order, k))
      × (k.id ≡ 1)
      × (k.status ≡ SyncStatus.pending)
      × (k.attempts ≡ 0))
    × ((c : Candidate) × (claim_job 2500 (λ x. false) t ≡ some c) × (claim_key c.1 ≤ 2000))
unfolding find_row
replay-claim_job_example =
    replay-claim_job 1 (env_at 2000) dead_db dead_job paid_order refl (refl, tt) refl refl refl refl
      2500 (omega arith)

abbrev machine : Machine
machine = record {
  database_url = "postgres://localhost";
  pool_created = true;
  pings = true;
  migrate = λ env s. (Result.ok tt, s);
  to_regclass = λ table. Result.ok true;
}

-- The whole command, from its words to its exit code.
replay_exits_0 :
    (main
      (λ s. some (pos 1))
      machine
      ("order-sync-admin" ∷ "replay" ∷ "1" ∷ [])
      (env_at 2000)
      dead_db).0.code
    ≡ 0
unfolding main parse_command replay_job_id replay_dead_job replay_update count_rows text_eq pure
    ◌>>=◌ wrapping statement is_empty
replay_exits_0 = refl

abbrev in_use : Result (Unit {0})
in_use = Result.err (Error.message "in use")

-- The worker's loop does not end in time.
abbrev late : Bool
late = false

abbrev serving_process : Process
serving_process = record { server = some true; pool = some true; worker = some (start new_worker) }

-- The worker is late and the server's listener stays in use, so that both fail.
on_stop_cases_example :
    let s = on_stop late (in_use, true) serving_process in
    let stopped = stop_answer late serving_process.worker in
    let down = shutdown_answer in_use serving_process.server in
    (s.calls ≡ StopCall.stop_call ∷ StopCall.shutdown_call ∷ StopCall.close_call ∷ [])
    × (s.process.pool ≡ some false)
    × (s.process.server ≡ some true)
    × ((c : Control)
        → serving_process.worker ≡ some c
        → c.started ≡ true
        → s.process.worker ≡ some (record c { cancelled = true }))
    × (stopped ≡ Result.ok tt → down ≡ Result.ok tt → s.errors ≡ [])
    × ((e : Error)
        → stopped ≡ Result.err e
        → down ≡ Result.ok tt
        → s.errors ≡ Error.wrap "stop SAP worker: %w" e ∷ [])
    × ((e : Error)
        → stopped ≡ Result.ok tt
        → down ≡ Result.err e
        → s.errors ≡ Error.wrap "shutdown HTTP server: %w" e ∷ [])
    × ((e f : Error)
        → stopped ≡ Result.err e
        → down ≡ Result.err f
        → s.errors
          ≡ Error.wrap "stop SAP worker: %w" e ∷ Error.wrap "shutdown HTTP server: %w" f ∷ [])
unfolding filter_rows
on_stop_cases_example = on_stop_cases late in_use true serving_process

-- The catalog has one of the three SKUs before.
migrate-verify_schema_example :
    let (r, s') = (migrate >> verify_schema (λ table. Result.ok true)) (env_at 1) empty_db in
    (r ≡ Result.ok tt)
    × (s'.tables ≡ record empty_tables { skus = s'.tables.skus })
    × ((sku : String) (row : SkuRow)
        → find_row (is_sku sku) empty_tables.skus ≡ some row
        → find_row (is_sku sku) s'.tables.skus ≡ some row)
    × ((migrate (env_at 1) s').1.tables ≡ s'.tables)
unfolding AreDistinct find_row
migrate-verify_schema_example =
    migrate-verify_schema (λ table. Result.ok true) (env_at 1) empty_db (λ table h. refl)
      (λ n. refl) (refl, tt)
