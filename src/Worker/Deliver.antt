-- ===== src/Worker/Deliver.antt =====
-- `deliver` and `drainDue` of internal/sync/worker.go. The log lines are left out.
use order_sync.Base.{
  ℕ, ◌+◌, String, Bool, true, false, Option, none, some, List, [], ◌∷◌, leb, ltb, if◌then◌else◌,
}
use order_sync.Base.Int.{ℤ}
use order_sync.Config.{Config}
use order_sync.Contracts.{Result, Time, SyncStatus}
use order_sync.Postgres.Schema.{Db, Env}
use order_sync.Worker.Job.{OrderDetails, Job, claim_due, mark_job_synced, mark_job_failed}
use order_sync.Worker.Retry.{
  max_total_attempts, recovery_window_expired, retry_delay, failure_state,
}

-- What an error of the SAP client tells the worker: `Retryable()` and `RetryAfter()`, where it has them.
pub record SapError : Type 0 where
  pub retryable : Option Bool
  pub retry_after : Option ℤ
  pub text : String

pub data SapReply : Type 0 where
  synced : String → SapReply
  failed : SapError → SapReply

-- What one round takes from outside: the worker's clock and the database's, the rows that other
-- transactions have locked, the answer of SAP, rand.Int63n, and the error that a failing MarkSynced
-- writes into the row.
pub record Round : Type 0 where
  pub now : Time
  pub env : Env
  pub locked : ℕ → Bool
  pub reply : OrderDetails → SapReply
  pub random : ℕ → ℕ
  pub sync_error_text : String

-- A request to SAP: the job and the number of the attempt.
pub record Dispatch : Type 0 where
  pub job_id : ℕ
  pub attempt : ℕ
  pub order_id : String

pub record World : Type 0 where
  pub db : Db
  pub dispatches : List Dispatch

abbrev pub is_retryable : SapError → Bool
is_retryable e = elim e.retryable [ none ↦ true | some b ↦ b ]

-- A call whose error is only logged.
abbrev pub ignoring : {A : Type 0} → Result A × Db → Db
ignoring (r, s) = s

abbrev pub fail : Round → Job → SyncStatus → Time → String → Db → Db
fail round job status due message s =
    ignoring (mark_job_failed job.id status due message round.env s)

-- handleDeliveryFailure.
unfoldable pub handle_delivery_failure : Config → Round → Job → SapError → Db → Db
unfolding mark_job_failed failure_state
handle_delivery_failure cfg round job e s =
    let (status, due) =
      failure_state cfg job.attempts round.now (is_retryable e)
        (retry_delay round.random e.retry_after job.attempts) in
    fail round job status due e.text s

-- The branch of persistDeliverySuccess where MarkSynced fails.
abbrev pub after_mark_synced : Config → Round → Job → Result (Unit {0}) × Db → Db
after_mark_synced cfg round job (Result.ok _, s) = s
after_mark_synced cfg round job (Result.err e, s) =
    fail round job
      (if leb (max_total_attempts cfg) job.attempts then SyncStatus.dead else SyncStatus.pending)
      (round.now + retry_delay round.random none job.attempts) round.sync_error_text s

-- persistDeliverySuccess.
unfoldable pub persist_delivery_success : Config → Round → Job → String → Db → Db
unfolding mark_job_synced mark_job_failed
persist_delivery_success cfg round job sap_id s =
    after_mark_synced cfg round job (mark_job_synced job.id sap_id round.env s)

abbrev pub after_reply : Config → Round → Job → SapReply → Db → Db
after_reply cfg round job (SapReply.synced sap_id) s =
    persist_delivery_success cfg round job sap_id s
after_reply cfg round job (SapReply.failed e) s = handle_delivery_failure cfg round job e s

abbrev pub is_dead : SyncStatus → Bool
is_dead SyncStatus.dead = true
is_dead _ = false

-- From the dispatch to the end: one request, and what its answer makes of the job.
abbrev pub dispatch : Config → Round → Job → World → World
dispatch cfg round job w = record {
  db = after_reply cfg round job (round.reply job.details) w.db;
  dispatches =
      record { job_id = job.id; attempt = job.attempts; order_id = job.details.order_id }
      ∷ w.dispatches;
}

abbrev pub recovery_expired_message : String
recovery_expired_message = "SAP recovery window expired after %s"

-- expireRecoveryWindow.
abbrev pub expire_recovery_window : Round → Job → World → World
expire_recovery_window round job w = record w {
  db = fail round job SyncStatus.dead round.now recovery_expired_message w.db;
}

abbrev pub max_attempts_message : String
max_attempts_message = "SAP maximum attempts exceeded (%d)"

-- deliver.
unfoldable pub deliver : Config → Round → Job → World → World
unfolding persist_delivery_success handle_delivery_failure
deliver cfg round job w =
    if is_dead job.status
    then w
    else (if recovery_window_expired cfg job.waiting_since round.now
        then expire_recovery_window round job w
        else (if ltb (max_total_attempts cfg) job.attempts
            then record w {
              db = fail round job SyncStatus.dead round.now max_attempts_message w.db;
            }
            else dispatch cfg round job w))

-- What one turn of the loop in drainDue does with the claim, and whether the loop goes on.
abbrev pub deliver_claimed : Config → Round → World → Result (Option Job) → World × Bool
deliver_claimed cfg round w (Result.err e) = (w, false)
deliver_claimed cfg round w (Result.ok none) = (w, false)
deliver_claimed cfg round w (Result.ok (some job)) = (deliver cfg round job w, true)

unfoldable pub drain_step : Config → Round → World → World × Bool
unfolding deliver
drain_step cfg round w =
    let (claimed, s) = claim_due round.locked round.env w.db in
    deliver_claimed cfg round (record w { db = s }) claimed

-- drainDue: each turn meets what its round brings; the loop stops at the first claim that gives no job.
unfoldable pub drain_due : Config → List Round → World → World
unfolding drain_step
drain_due cfg [] w = w
drain_due cfg (round ∷ rounds) w =
    let step = drain_step cfg round w in
    let rest = drain_due cfg rounds step.0 in if step.1 then rest else step.0
