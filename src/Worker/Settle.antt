-- ===== src/Worker/Settle.antt =====
-- What a delivery makes of the job that was claimed, when its statements are sent: the job spends a claim.
use order_sync.Base.{
  ℕ, suc, ◌-◌, ◌≤◌, ◌<◌, String, Bool, true, false, none, List, ◌≡◌, ◌≢◌, refl, arith, find_row,
  update_rows, Bool-cases, Option-cases, inl, inr, ltb,
}
use order_sync.Config.{Config}
use order_sync.Contracts.{Time, SyncStatus}
use order_sync.Postgres.Schema.{JobRow, Db}
use order_sync.Postgres.Tx.{wrapping, statement, writes}
use order_sync.Postgres.Queries.Jobs.{has_job_id, synced_row, failed_row, mark_synced, mark_failed}
use order_sync.Worker.Job.{Job, mark_job_synced, mark_job_failed}
use order_sync.Worker.Retry.{max_total_attempts, recovery_window_expired, failure_state}
use order_sync.Worker.Deliver.{
  SapReply, Round, World, is_dead, fail, handle_delivery_failure, persist_delivery_success,
  after_reply, deliver,
}
use order_sync.Worker.Budget.{is_live, weight}

-- One row is changed, and has at most `max_total_attempts - a` claims left.
pub record Settles (cfg : Config) (a id : ℕ) (before after : List JobRow) : Type 0 where
  pub change : JobRow → JobRow
  pub same : after ≡ update_rows (has_job_id id) change before
  pub keeps : (j : JobRow) → (change j).id ≡ j.id
  pub spends :
      (j : JobRow) → j.attempts ≡ suc a → weight cfg (change j) ≤ max_total_attempts cfg - a

module _ (cfg : Config) (round : Round) (sent : (n : ℕ) → round.env.fault n ≡ false) (job : Job)
    (a : ℕ) (attempt : job.attempts ≡ suc a) where
  fail-Settles :
      (status : SyncStatus) (due : Time) (message : String) (s : Db)
      → (is_live status ≡ true → suc a < max_total_attempts cfg)
      → Settles cfg a job.id s.tables.jobs (fail round job status due message s).tables.jobs
  unfolding mark_job_failed wrapping statement writes mark_failed weight
  fail-Settles status due message s few = record {
    change = failed_row status due message round.env.now;
    same = rw (sent s.calls) refl;
    keeps = λ j. refl;
    spends = λ j e. ground (arith, few);
  }

  failure_state-few :
      (now : Time) (retryable : Bool) (delay : ℕ)
      → is_live (failure_state cfg job.attempts now retryable delay).0 ≡ true
      → suc a < max_total_attempts cfg
  unfolding failure_state
  failure_state-few now retryable delay h = ground arith

  after_reply-Settles :
      (reply : SapReply) (s : Db)
      → find_row (has_job_id job.id) s.tables.jobs ≢ none
      → Settles cfg a job.id s.tables.jobs (after_reply cfg round job reply s).tables.jobs
  unfolding handle_delivery_failure persist_delivery_success mark_job_synced wrapping statement
      writes mark_synced weight
  after_reply-Settles (SapReply.failed e) s found =
      fail-Settles _ _ _ s (failure_state-few round.now _ _)
  after_reply-Settles (SapReply.synced sap_id) s found =
      elim (Option-cases (find_row (has_job_id job.id) s.tables.jobs)) [
        | inl lost ↦ absurd (found lost)
        | inr (j, here) ↦ record {
          change = synced_row sap_id round.env.now;
          same = rw (sent s.calls) (rw here refl);
          keeps = λ k. refl;
          spends = λ k e. omega arith;
        }
      ]

  pub deliver-Settles :
      (w : World)
      → is_dead job.status ≡ false
      → find_row (has_job_id job.id) w.db.tables.jobs ≢ none
      → Settles cfg a job.id w.db.tables.jobs (deliver cfg round job w).db.tables.jobs
  unfolding deliver
  deliver-Settles w live found =
      rw live (elim (Bool-cases (recovery_window_expired cfg job.waiting_since round.now)) [
        | inl expired ↦ rw expired (fail-Settles SyncStatus.dead _ _ w.db (λ h. cc))
        | inr open_window ↦
            rw open_window (elim (Bool-cases (ltb (max_total_attempts cfg) job.attempts)) [
              | inl spent ↦ rw spent (fail-Settles SyncStatus.dead _ _ w.db (λ h. cc))
              | inr left ↦ rw left (after_reply-Settles (round.reply job.details) w.db found)
            ])
      ])
