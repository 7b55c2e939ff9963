-- ===== src/Tests/Worker.antt =====
-- The worker on a stored job: SAP answers once with a retryable error.
use mathlib.Core.List.{Memᴰ}
use order_sync.Base.{
  ◌*◌, ◌^◌, ◌-◌, ◌≤◌, min, true, false, none, some, [], ◌∷◌, ◌≡◌, refl, sym, subst, arith, find_row,
  filter_rows, update_rows,
}
use order_sync.Base.Int.{pos, ◌*ℤ◌, wrap_64}
use order_sync.Contracts.{SyncStatus, OrderState}
use order_sync.Postgres.Schema.{OrderRow, JobRow, Db}
use order_sync.Postgres.Tx.{pure, throw, ◌>>=◌, wrapping, statement, reads, writes}
use order_sync.Postgres.Queries.Orders.{find_items}
use order_sync.Postgres.Queries.Jobs.{
  is_scheduled, is_processing, is_claimable, claim_key, claim_job, lock_job, job_items, mark_failed,
}
use order_sync.Worker.Retry.{
  max_attempts, max_total_attempts, recovery_window, recovery_window_expired, retry_delay_ms,
  retry_delay, max_retry_delay,
}
use order_sync.Worker.Retry.Bounds.{retry_delay_ms_closed, retry_delay_bounds}
use order_sync.Worker.Order.{IsFirst, claim_job-IsFirst}
use order_sync.Worker.Job.{claim_due}
use order_sync.Worker.Deliver.{SapReply, Round, World, drain_due}
use order_sync.Worker.Attempts.{count}
use order_sync.Worker.Requests.{drain_all, requests_bounded}
use order_sync.Tests.Data.{cfg, env_at, empty_db}

abbrev pub paid_order : OrderRow
paid_order = record {
  id = 1;
  order_id = "A-1";
  customer_email = "a@b.example";
  payment_status = OrderState.paid;
  sap_id = none;
  paid_at = some 77;
}

abbrev pub due_job : JobRow
due_job = record {
  id = 1;
  order_id = 1;
  status = SyncStatus.pending;
  due_at = 900;
  attempts = 2;
  locked_at = none;
  waiting_since = none;
  last_error = none;
  sap_internal_id = none;
  synced_at = none;
}

abbrev pub job_db : Db
job_db = record empty_db {
  tables = record (empty_db.tables) { orders = paid_order ∷ []; jobs = due_job ∷ [] };
}

abbrev pub unavailable : Round
unavailable = record {
  now = 1000;
  env = env_at 1000;
  locked = λ id. false;
  reply = λ o.
      SapReply.failed
        (record { retryable = some true; retry_after = some (pos 5); text = "HTTP 503" });
  random = λ n. n - 1;
  sync_error_text = "";
}

-- The third attempt has failed: the job waits, and is due after the time that SAP asked for.
abbrev waiting_job : JobRow
waiting_job = record due_job {
  status = SyncStatus.waiting;
  due_at = 1005;
  attempts = 3;
  waiting_since = some 1000;
  last_error = some "HTTP 503";
}

drained : World
drained =
    drain_all cfg ((unavailable ∷ unavailable ∷ []) ∷ []) (record { db = job_db; dispatches = [] })

drain_waits : drained.db.tables.jobs ≡ waiting_job ∷ []
unfolding drained drain_all drain_due claim_due pure throw ◌>>=◌ wrapping statement reads writes
    is_scheduled is_processing is_claimable claim_key claim_job lock_job job_items mark_failed
    find_items find_row filter_rows update_rows recovery_window recovery_window_expired wrap_64 ◌*ℤ◌
    max_total_attempts max_attempts retry_delay retry_delay_ms
drain_waits = refl

requests_bounded_example :
    (count 1 drained.dispatches ≤ max_total_attempts cfg) × (count 1 drained.dispatches ≤ 3)
unfolding drained
requests_bounded_example =
    requests_bounded cfg ((unavailable ∷ unavailable ∷ []) ∷ []) job_db waiting_job
      (subst (Memᴰ waiting_job) (sym drain_waits) (Memᴰ.head refl))

retry_delay_bounds_example :
    (retry_delay (λ n. n - 1) none 3 ≤ max_retry_delay)
    × (retry_delay (λ n. n - 1) none 3 ≤ min 60000 (1000 * 2 ^ (3 - 1)) * 10 ^ 6)
    × (retry_delay (λ n. n - 1) (some (pos 7)) 3 ≡ min 7 max_retry_delay)
retry_delay_bounds_example = retry_delay_bounds (λ n. n - 1) (λ n h. omega arith) 3 7 none

retry_delay_ms_closed_example : retry_delay_ms 9 ≡ min 60000 (1000 * 2 ^ (9 - 1))
retry_delay_ms_closed_example = retry_delay_ms_closed 9

claim_job-IsFirst_example :
    IsFirst 1000
      (λ id. false)
      (paid_order ∷ [])
      (due_job ∷ [])
      (claim_job 1000 (λ id. false) job_db.tables)
claim_job-IsFirst_example = claim_job-IsFirst 1000 (λ id. false) job_db.tables
