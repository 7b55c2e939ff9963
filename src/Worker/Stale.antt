-- ===== src/Worker/Stale.antt =====
-- A delivery of a worker whose lock has run out: MarkSynced and MarkFailed find the row by its id alone.
use order_sync.Base.{
  ℕ, ◌≤◌, ◌<◌, String, true, false, none, some, ◌≡◌, refl, ◌∙◌, arith, ltb, find_row,
  find_row-update, find_row_test,
}
use order_sync.Config.{Config}
use order_sync.Contracts.{Time, SyncStatus}
use order_sync.Postgres.Schema.{JobRow, Db}
use order_sync.Postgres.Tx.{wrapping, statement, writes}
use order_sync.Postgres.Queries.Jobs.{
  has_job_id, synced_row, failed_row, waiting_from, mark_synced, mark_failed,
}
use order_sync.Worker.Deliver.{
  SapError, SapReply, Round, World, is_dead, is_retryable, fail, handle_delivery_failure,
  persist_delivery_success, recovery_expired_message, max_attempts_message, deliver,
}
use order_sync.Worker.Job.{Job, mark_job_synced, mark_job_failed}
use order_sync.Worker.Retry.{
  max_total_attempts, recovery_window_expired, retry_delay, failure_state,
}

module _ (cfg : Config) (round : Round) (sent : (n : ℕ) → round.env.fault n ≡ false) (job : Job)
    (s : Db) (j : JobRow) (found : find_row (has_job_id job.id) s.tables.jobs ≡ some j) where
  fail-row :
      (status : SyncStatus) (due : Time) (message : String)
      → find_row (has_job_id job.id) (fail round job status due message s).tables.jobs
        ≡ some (failed_row status due message round.env.now j)
  unfolding mark_job_failed wrapping statement writes mark_failed
  fail-row status due message =
      let change = failed_row status due message round.env.now in
      rw (sent s.calls) (
        find_row-update (has_job_id job.id) (has_job_id job.id) change (λ r. refl) s.tables.jobs
        ∙ rw found (ground (arith, find_row_test (has_job_id job.id) s.tables.jobs j found)))

  success-row :
      (sap_id : String)
      → find_row (has_job_id job.id) (persist_delivery_success cfg round job sap_id s).tables.jobs
        ≡ some (synced_row sap_id round.env.now j)
  unfolding persist_delivery_success mark_job_synced wrapping statement writes mark_synced
  success-row sap_id =
      let change = synced_row sap_id round.env.now in
      rw (sent s.calls) (
        rw found (
          find_row-update (has_job_id job.id) (has_job_id job.id) change (λ r. refl) s.tables.jobs
          ∙ rw found (ground (arith, find_row_test (has_job_id job.id) s.tables.jobs j found))))

-- While its statements are sent, a delivery of a job that was claimed in a status other than DEAD writes its
-- outcome into the stored row, whatever that row is by then: also where another worker has claimed or finished
-- the job, or the order was cancelled. The row is made DEAD, due now, where the recovery window has run out,
-- and where it has not but the attempts are beyond the total. Else SAP is asked: a success makes the row SYNCED with
-- SAP's identifier, and an error gives it the status and the due time of failureState. No lock stays.
pub delivery_overwrites :
    (cfg : Config) (round : Round)
    → ((n : ℕ) → round.env.fault n ≡ false)
    → (job : Job) → is_dead job.status ≡ false
    → (w : World) (j : JobRow) → find_row (has_job_id job.id) w.db.tables.jobs ≡ some j
    → let after = find_row (has_job_id job.id) (deliver cfg round job w).db.tables.jobs in
      let expired = recovery_window_expired cfg job.waiting_since round.now in
      (expired ≡ true
        → after
          ≡ some (record j {
            status = SyncStatus.dead;
            due_at = round.now;
            locked_at = none;
            waiting_since = none;
            last_error = some recovery_expired_message;
          }))
      × (expired ≡ false
          → max_total_attempts cfg < job.attempts
          → after
            ≡ some (record j {
              status = SyncStatus.dead;
              due_at = round.now;
              locked_at = none;
              waiting_since = none;
              last_error = some max_attempts_message;
            }))
      × (expired ≡ false
          → job.attempts ≤ max_total_attempts cfg
          → (sap_id : String) → round.reply job.details ≡ SapReply.synced sap_id
          → after
            ≡ some (record j {
              status = SyncStatus.synced;
              sap_internal_id = some sap_id;
              synced_at = some round.env.now;
              locked_at = none;
              waiting_since = none;
              last_error = none;
            }))
      × (expired ≡ false
          → job.attempts ≤ max_total_attempts cfg
          → (e : SapError) → round.reply job.details ≡ SapReply.failed e
          → let (status, due) =
              failure_state cfg job.attempts round.now
                (is_retryable e)
                (retry_delay round.random e.retry_after job.attempts) in
            after
            ≡ some (record j {
              status = status;
              due_at = due;
              locked_at = none;
              waiting_since = waiting_from status j.waiting_since round.env.now;
              last_error = some e.text;
            }))
unfolding deliver handle_delivery_failure
delivery_overwrites cfg round sent job live w j found =
    let failing = fail-row cfg round sent job w.db j found in
    rw live (
      λ late. rw late (failing SyncStatus.dead round.now recovery_expired_message),
      λ early spent.
          let test : ltb (max_total_attempts cfg) job.attempts ≡ true = ground arith in
          rw early (rw test (failing SyncStatus.dead round.now max_attempts_message)),
      λ early left sap_id reply.
          let test : ltb (max_total_attempts cfg) job.attempts ≡ false = ground arith in
          rw early (rw test (rw reply (success-row cfg round sent job w.db j found sap_id))),
      λ early left e reply.
          let test : ltb (max_total_attempts cfg) job.attempts ≡ false = ground arith in
          rw early (rw test (rw reply (failing _ _ e.text))),
    )
