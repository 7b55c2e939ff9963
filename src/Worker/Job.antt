-- ===== src/Worker/Job.antt =====
-- internal/sync/ports.go, and sync_job_repository.go, which implements its JobRepository.
use order_sync.Base.{ℕ, suc, String, Bool, Option, none, some, List}
use order_sync.Contracts.{Error, Time, SyncStatus, OrderItem}
use order_sync.Postgres.Schema.{OrderRow, JobRow}
use order_sync.Postgres.Tx.{Tx, pure, throw, ◌>>=◌, ◌>>◌, wrapping, statement, reads, writes}
use order_sync.Postgres.Queries.Jobs.{
  Candidate, claim_job, lock_job, job_items, mark_synced, mark_failed, next_wake,
}
use order_sync.Transaction.{run}

pub record OrderDetails : Type 0 where
  pub order_id : String
  pub customer_email : String
  pub paid_at : Time
  pub items : List OrderItem

pub record Job : Type 0 where
  pub id : ℕ
  pub status : SyncStatus
  pub attempts : ℕ
  pub due_at : Option Time
  pub waiting_since : Option Time
  pub details : OrderDetails

-- The scan of `paid_at` into a time.Time fails on a null.
abbrev pub scan_paid_at : Option Time → Tx Time
scan_paid_at none = throw (Error.wrap "claim due SAP job" Error.database)
scan_paid_at (some t) = pure t

abbrev pub claimed_job : OrderRow → JobRow → Time → List OrderItem → Job
claimed_job o j paid_at items = record {
  id = j.id;
  status = j.status;
  attempts = suc j.attempts;
  due_at = some j.due_at;
  waiting_since = j.waiting_since;
  details = record {
    order_id = o.order_id;
    customer_email = o.customer_email;
    paid_at = paid_at;
    items = items;
  };
}

-- loadJobItems.
abbrev pub load_job_items : ℕ → Tx (List OrderItem)
load_job_items id = wrapping "query items for SAP job %d" (statement (reads (λ env. job_items id)))

-- The job is the row as it was claimed, with one more attempt.
abbrev pub lock_candidate : Option Candidate → Tx (Option Job)
lock_candidate none = pure none
lock_candidate (some (o, j)) = do
  paid_at ← scan_paid_at o.paid_at
  wrapping "lock SAP job %d" (statement (writes (λ env. lock_job j.id env.now)))
  items ← wrapping "load items for SAP job %d" (load_job_items j.id)
  pure (some (claimed_job o j paid_at items))

-- ClaimDue, in its own transaction; `locked` tells the rows that another transaction has locked.
unfoldable pub claim_work : (ℕ → Bool) → Tx (Option Job)
claim_work locked = do
  candidate ← wrapping "claim due SAP job" (statement (reads (λ env. claim_job env.now locked)))
  lock_candidate candidate

unfoldable pub claim_due : (ℕ → Bool) → Tx (Option Job)
unfolding claim_work run
claim_due locked = run (claim_work locked)

-- NextWake.
unfoldable pub next_wake_at : Tx (Option Time)
next_wake_at = wrapping "find next SAP job wake-up" (statement (reads (λ env. next_wake)))

-- MarkSynced and MarkFailed.
unfoldable pub mark_job_synced : ℕ → String → Tx (Unit {0})
mark_job_synced id sap_id =
    wrapping "mark SAP job %d synced" (statement (writes (λ env. mark_synced id sap_id env.now)))

unfoldable pub mark_job_failed : ℕ → SyncStatus → Time → String → Tx (Unit {0})
mark_job_failed id status due_at message =
    wrapping "mark SAP job %d %s"
      (statement (writes (λ env. mark_failed id status due_at message env.now)))
