-- ===== src/Tests/System.antt =====
-- A run of the whole process: the worker claims a job, a replay is refused meanwhile, and the delivery fails.
use order_sync.Base.{
  ◌≢◌, ◌≤◌, ◌<◌, String, true, false, none, some, [], ◌∷◌, ◌≡◌, refl, arith, find_row, filter_rows,
  update_rows,
}
use order_sync.Contracts.{Result, SyncStatus}
use order_sync.Postgres.Ids.{JobIds}
use order_sync.Postgres.Queries.Jobs.{
  has_job_id, is_scheduled, is_processing, is_claimable, claim_key, claim_job, lock_job, job_items,
  waiting_from,
}
use order_sync.Postgres.Queries.Orders.{find_items}
use order_sync.Postgres.Schema.{JobRow}
use order_sync.Postgres.Tx.{pure, throw, ◌>>=◌, wrapping, statement, reads, writes}
use order_sync.Admin.{replay_dead_job}
use order_sync.Worker.Deliver.{
  SapError, SapReply, is_retryable, recovery_expired_message, max_attempts_message, deliver,
}
use order_sync.Worker.Job.{Job, claim_due}
use order_sync.Worker.Retry.{
  max_total_attempts, recovery_window_expired, retry_delay, failure_state,
}
use order_sync.Worker.Stale.{delivery_overwrites}
use order_sync.System.{System, Moves, Runs, claimed, with_db}
use order_sync.System.Exclusion.{Meanwhile, claim_excludes}
use order_sync.System.Lifecycle.{Actor, MayDraw}
use order_sync.System.Refinement.{status_follows_lifecycle, held_job_is_processing, final_job_stays}
use order_sync.Tests.Data.{cfg, env_at}
use order_sync.Tests.Worker.{due_job, job_db, unavailable}

abbrev idle : JobRow → System
idle j = record {
  world = record {
    db = record job_db { tables = record (job_db.tables) { jobs = j ∷ [] }; next_job = 2 };
    dispatches = [];
  };
  holding = none;
}

idle-JobIds : (status : SyncStatus) → JobIds (idle (record due_job { status = status })).world.db
unfolding find_row
idle-JobIds status = record { distinct = (refl, tt); fresh = λ id above. ground arith }

abbrev busy : JobRow → System
busy j = record {
  world = record {
    db = (claim_due unavailable.locked unavailable.env (idle j).world.db).1;
    dispatches = [];
  };
  holding = claimed (claim_due unavailable.locked unavailable.env (idle j).world.db).0;
}

abbrev asked : JobRow → System
asked j = with_db (replay_dead_job 1 (env_at 1000) (busy j).world.db).1 (busy j)

abbrev held : Job
held = record {
  id = 1;
  status = SyncStatus.pending;
  attempts = 3;
  due_at = some 900;
  waiting_since = none;
  details = record { order_id = "A-1"; customer_email = "a@b.example"; paid_at = 77; items = [] };
}

asked-holding : (asked due_job).holding ≡ some held
unfolding claim_due pure throw ◌>>=◌ wrapping statement reads writes is_scheduled is_processing
    is_claimable claim_key claim_job lock_job job_items find_items find_row filter_rows update_rows
asked-holding = refl

abbrev delivered : System
delivered = record { world = deliver cfg unavailable held (asked due_job).world; holding = none }

asked-Runs : (j : JobRow) → Runs cfg (idle j) (asked j)
asked-Runs j = Runs.moves (idle j) (busy j) (asked j) (Moves.claims (idle j) unavailable refl) (
    Runs.moves (busy j) (asked j) (asked j) (Moves.replays (busy j) (env_at 1000) 1)
      (Runs.rests (asked j)))

status_follows_lifecycle_example :
    (k : JobRow) × (find_row (has_job_id 1) (asked due_job).world.db.tables.jobs ≡ some k)
    × (k' : JobRow) × (find_row (has_job_id 1) delivered.world.db.tables.jobs ≡ some k')
    × MayDraw Actor.delivers k.status k'.status
unfolding find_row
status_follows_lifecycle_example =
    status_follows_lifecycle cfg (idle due_job) (asked due_job) delivered
      (idle-JobIds SyncStatus.pending) refl (asked-Runs due_job)
      (Moves.delivers (asked due_job) unavailable held asked-holding) 1 due_job refl

held_job_is_processing_example :
    JobIds (asked due_job).world.db
    × (j : JobRow) × (find_row (has_job_id 1) (asked due_job).world.db.tables.jobs ≡ some j)
    × (j.status ≡ SyncStatus.processing)
    × (j.attempts ≡ 3)
held_job_is_processing_example =
    held_job_is_processing cfg (idle due_job) (asked due_job) (idle-JobIds SyncStatus.pending) refl
      (asked-Runs due_job) held asked-holding

abbrev synced_job : JobRow
synced_job = record due_job { status = SyncStatus.synced }

final_job_stays_example :
    (j' : JobRow) × (find_row (has_job_id 1) (asked synced_job).world.db.tables.jobs ≡ some j')
    × (j'.status ≡ SyncStatus.synced)
unfolding find_row
final_job_stays_example =
    final_job_stays cfg (idle synced_job) (asked synced_job) (idle-JobIds SyncStatus.synced) refl
      (asked-Runs synced_job) 1 synced_job refl refl

abbrev cancelled_job : JobRow
cancelled_job = record due_job { status = SyncStatus.cancelled }

-- The order was cancelled while SAP was asked; the worker's delivery makes the job PENDING again.
delivery_overwrites_example :
    let after =
      find_row
        (has_job_id 1)
        (deliver cfg unavailable held (idle cancelled_job).world).db.tables.jobs in
    let expired = recovery_window_expired cfg held.waiting_since unavailable.now in
    (expired ≡ true
      → after
        ≡ some (record cancelled_job {
          status = SyncStatus.dead;
          due_at = unavailable.now;
          locked_at = none;
          waiting_since = none;
          last_error = some recovery_expired_message;
        }))
    × (expired ≡ false
        → max_total_attempts cfg < held.attempts
        → after
          ≡ some (record cancelled_job {
            status = SyncStatus.dead;
            due_at = unavailable.now;
            locked_at = none;
            waiting_since = none;
            last_error = some max_attempts_message;
          }))
    × (expired ≡ false
        → held.attempts ≤ max_total_attempts cfg
        → (sap_id : String) → unavailable.reply held.details ≡ SapReply.synced sap_id
        → after
          ≡ some (record cancelled_job {
            status = SyncStatus.synced;
            sap_internal_id = some sap_id;
            synced_at = some unavailable.env.now;
            locked_at = none;
            waiting_since = none;
            last_error = none;
          }))
    × (expired ≡ false
        → held.attempts ≤ max_total_attempts cfg
        → (e : SapError) → unavailable.reply held.details ≡ SapReply.failed e
        → let (status, due) =
            failure_state cfg held.attempts unavailable.now
              (is_retryable e)
              (retry_delay unavailable.random e.retry_after held.attempts) in
          after
          ≡ some (record cancelled_job {
            status = status;
            due_at = due;
            locked_at = none;
            waiting_since = waiting_from status cancelled_job.waiting_since unavailable.env.now;
            last_error = some e.text;
          }))
unfolding find_row
delivery_overwrites_example =
    delivery_overwrites cfg unavailable (λ n. refl) held refl (idle cancelled_job).world
      cancelled_job refl

-- A second worker looks for a job while the first one delivers.
claim_excludes_example :
    ((j : JobRow) × (find_row (has_job_id 1) (asked due_job).world.db.tables.jobs ≡ some j)
      × (j.status ≡ SyncStatus.processing)
      × (j.attempts ≡ 3))
    × ((again : Job)
        → (claim_due (λ x. false) (env_at 5000) (asked due_job).world.db).0 ≡ Result.ok (some again)
        → again.id ≢ 1)
unfolding claim_due pure throw ◌>>=◌ wrapping statement reads writes is_scheduled is_processing
    is_claimable claim_key claim_job lock_job job_items find_items find_row filter_rows update_rows
claim_excludes_example =
    claim_excludes cfg unavailable.locked unavailable.env (idle due_job).world.db
      (idle-JobIds SyncStatus.pending) held refl (asked due_job).world.db
      (Meanwhile.replays (busy due_job).world.db (asked due_job).world.db (env_at 1000) 1
        (Meanwhile.rests (asked due_job).world.db))
      (λ x. false) (env_at 5000) (omega arith)
