-- ===== src/System/Delivery.antt =====
-- What a delivery does to the rows, whatever SAP answers and whatever statement fails.
use order_sync.Base.{
  ℕ, suc, String, Bool, true, false, none, ◌≡◌, refl, ◌⊎◌, inl, inr, find_row, update_rows,
  Bool-cases, Option-cases, ltb, leb, ◌+◌, if◌then◌else◌,
}
use order_sync.Config.{Config}
use order_sync.Contracts.{Time, SyncStatus}
use order_sync.Postgres.Schema.{JobRow, Db}
use order_sync.Postgres.Tx.{wrapping, statement, writes}
use order_sync.Postgres.Queries.Jobs.{has_job_id, synced_row, failed_row, mark_synced, mark_failed}
use order_sync.Worker.Job.{Job, mark_job_synced, mark_job_failed}
use order_sync.Worker.Retry.{
  max_attempts, max_total_attempts, recovery_window_expired, retry_delay, failure_state,
}
use order_sync.Worker.Deliver.{
  SapReply, Round, World, is_dead, fail, handle_delivery_failure, persist_delivery_success,
  after_reply, deliver,
}
use order_sync.System.Lifecycle.{Actor, Transition}

-- A status that a delivery may give: an arrow leads to it from PROCESSING.
abbrev pub Outcome : SyncStatus → Type 0
Outcome status = Transition Actor.delivers SyncStatus.processing status

-- Nothing is written, or the rows of one id are changed.
pub record Delivers (id : ℕ) (s s' : Db) : Type 0 where
  pub same_next : s'.next_job ≡ s.next_job
  pub rows :
      (s'.tables.jobs ≡ s.tables.jobs)
      ⊎ ((change : JobRow → JobRow) × (s'.tables.jobs
            ≡ update_rows (has_job_id id) change s.tables.jobs)
          × ((j : JobRow) → (change j).id ≡ j.id)
          × ((j : JobRow) → Outcome (change j).status))

module _ (cfg : Config) (round : Round) (job : Job) where
  fail-Delivers :
      (status : SyncStatus) (due : Time) (message : String) (s : Db)
      → Outcome status
      → Delivers job.id s (fail round job status due message s)
  unfolding mark_job_failed wrapping statement writes mark_failed
  fail-Delivers status due message s outcome = elim (Bool-cases (round.env.fault s.calls)) [
    | inl lost ↦ rw lost (record { same_next = refl; rows = inl refl })
    | inr sent ↦ rw sent (record {
      same_next = refl;
      rows = inr (failed_row status due message round.env.now, refl, λ j. refl, λ j. outcome);
    })
  ]

  failure_state-Outcome :
      (now : Time) (retryable : Bool) (delay : ℕ)
      → Outcome (failure_state cfg job.attempts now retryable delay).0
  unfolding failure_state
  failure_state-Outcome now false delay = Transition.give_up
  failure_state-Outcome now true delay =
      elim (Bool-cases (leb (max_total_attempts cfg) job.attempts)) [
        | inl all ↦ rw all Transition.give_up
        | inr left ↦ rw left (elim (Bool-cases (leb (max_attempts cfg) job.attempts)) [
          | inl many ↦ rw many Transition.recover
          | inr few ↦ rw few Transition.retry
        ])
      ]

  marked-Outcome : (b : Bool) → Outcome (if b then SyncStatus.dead else SyncStatus.pending)
  marked-Outcome true = Transition.give_up
  marked-Outcome false = Transition.retry

  persist-Delivers :
      (sap_id : String) (s : Db)
      → Delivers job.id s (persist_delivery_success cfg round job sap_id s)
  unfolding persist_delivery_success mark_job_synced wrapping statement writes mark_synced
  persist-Delivers sap_id s = elim (Bool-cases (round.env.fault s.calls)) [
    | inl lost ↦
        let failed =
          fail-Delivers _ (round.now + retry_delay round.random none job.attempts)
            round.sync_error_text (record s { calls = suc s.calls })
            (marked-Outcome (leb (max_total_attempts cfg) job.attempts)) in
        rw lost (record { same_next = failed.same_next; rows = failed.rows })
    | inr sent ↦ rw sent (elim (Option-cases (find_row (has_job_id job.id) s.tables.jobs)) [
      | inl gone ↦ rw gone (record { same_next = refl; rows = inl refl })
      | inr (j, here) ↦ rw here (record {
        same_next = refl;
        rows = inr (synced_row sap_id round.env.now, refl, λ k. refl, λ k. Transition.succeed);
      })
    ])
  ]

  after_reply-Delivers :
      (reply : SapReply) (s : Db) → Delivers job.id s (after_reply cfg round job reply s)
  unfolding handle_delivery_failure
  after_reply-Delivers (SapReply.failed e) s =
      fail-Delivers _ _ _ s (failure_state-Outcome round.now _ _)
  after_reply-Delivers (SapReply.synced sap_id) s = persist-Delivers sap_id s

  pub deliver-Delivers : (w : World) → Delivers job.id w.db (deliver cfg round job w).db
  unfolding deliver
  deliver-Delivers w = elim (Bool-cases (is_dead job.status)) [
    | inl dead ↦ rw dead (record { same_next = refl; rows = inl refl })
    | inr live ↦
        rw live (elim (Bool-cases (recovery_window_expired cfg job.waiting_since round.now)) [
          | inl expired ↦ rw expired (fail-Delivers _ _ _ w.db Transition.give_up)
          | inr open_window ↦
              rw open_window (elim (Bool-cases (ltb (max_total_attempts cfg) job.attempts)) [
                | inl spent ↦ rw spent (fail-Delivers _ _ _ w.db Transition.give_up)
                | inr left ↦ rw left (after_reply-Delivers (round.reply job.details) w.db)
              ])
        ])
  ]
