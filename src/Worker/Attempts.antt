-- ===== src/Worker/Attempts.antt =====
-- How many requests the worker sends to SAP for one job.
use mathlib.Core.List.{Memᴰ}
use order_sync.Base.{
  ℕ, suc, ◌+◌, ◌≤◌, String, Bool, false, Option, none, some, List, [], ◌∷◌, ◌≡◌, refl, ap, subst,
  inl, inr, arith, find_row, update_rows, Bool-cases, ltb, ◌==◌, if◌then◌else◌,
}
use order_sync.Config.{Config}
use order_sync.Contracts.{Result, Time, SyncStatus}
use order_sync.Postgres.Schema.{OrderRow, JobRow, Tables, Db}
use order_sync.Postgres.Tx.{wrapping, statement, writes}
use order_sync.Postgres.Queries.Jobs.{has_job_id, lock_job, mark_synced, synced_tables, mark_failed}
use order_sync.Worker.Job.{Job, claim_due, mark_job_synced, mark_job_failed}
use order_sync.Worker.Claims.{Claims, claim_due_locks}
use order_sync.Worker.Order.{IsFirst, claim_job-IsFirst}
use order_sync.Worker.Retry.{max_total_attempts, recovery_window_expired}
use order_sync.Worker.Deliver.{
  SapReply, Round, Dispatch, World, is_dead, fail, after_mark_synced, handle_delivery_failure,
  persist_delivery_success, after_reply, deliver,
}

-- The requests for a job.
unfoldable pub count : ℕ → List Dispatch → ℕ
count id [] = 0
count id (d ∷ ds) = (if d.job_id == id then 1 else 0) + count id ds

mem-update_rows :
    {R : Type 0} (q : R → Bool) (f : R → R) (rs : List R) (k : R)
    → Memᴰ k (update_rows q f rs)
    → (r : R) × Memᴰ r rs × (k ≡ (if q r then f r else r))
unfolding update_rows
mem-update_rows q f [] k m = elim m [ ]
mem-update_rows q f (r ∷ rs) k (Memᴰ.head e) = (r, Memᴰ.head refl, e)
mem-update_rows q f (r ∷ rs) k (Memᴰ.tail m) =
    let (r', m', e) = mem-update_rows q f rs k m in (r', Memᴰ.tail m', e)

module _ (cfg : Config) (ds : List Dispatch) where
  -- No job has had more requests than attempts, nor more than the limit.
  abbrev pub IsWithin : List JobRow → Type 0
  IsWithin jobs =
      (k : JobRow)
      → Memᴰ k jobs
      → (count k.id ds ≤ k.attempts) × (count k.id ds ≤ max_total_attempts cfg)

  -- What a claim adds: one attempt of the claimed job is not used yet.
  pub record IsReady (job : Job) (jobs : List JobRow) : Type 0 where
    pub within : IsWithin jobs
    pub unused : (k : JobRow) → Memᴰ k jobs → k.id ≡ job.id → suc (count k.id ds) ≤ k.attempts
    pub attempt : suc (count job.id ds) ≤ job.attempts

  update-IsWithin :
      (q : JobRow → Bool) (f : JobRow → JobRow)
      → ((j : JobRow) → ((f j).id ≡ j.id) × ((f j).attempts ≡ j.attempts))
      → (jobs : List JobRow) → IsWithin jobs
      → IsWithin (update_rows q f jobs)
  update-IsWithin q f keeps jobs h k m =
      let (r, m', e) = mem-update_rows q f jobs k m in
      ground (arith, h r m', keeps r, ap JobRow.id e, ap JobRow.attempts e)

  module _ (round : Round) where
    fail-IsWithin :
        (job : Job) (status : SyncStatus) (due : Time) (message : String) (s : Db)
        → IsWithin s.tables.jobs
        → IsWithin (fail round job status due message s).tables.jobs
    unfolding mark_job_failed wrapping statement writes mark_failed
    fail-IsWithin job status due message s h = elim (Bool-cases (round.env.fault s.calls)) [
      | inl lost ↦ rw lost h
      | inr sent ↦ rw sent (update-IsWithin _ _ (λ j. (refl, refl)) s.tables.jobs h)
    ]

    synced_tables-IsWithin :
        (id : ℕ) (sap_id : String) (now : Time) (t : Tables) (found : Option JobRow)
        → IsWithin t.jobs
        → IsWithin (synced_tables id sap_id now t found).jobs
    synced_tables-IsWithin id sap_id now t none h = h
    synced_tables-IsWithin id sap_id now t (some j) h =
        update-IsWithin _ _ (λ k. (refl, refl)) t.jobs h

    mark_job_synced-IsWithin :
        (id : ℕ) (sap_id : String) (s : Db)
        → IsWithin s.tables.jobs
        → IsWithin (mark_job_synced id sap_id round.env s).1.tables.jobs
    unfolding mark_job_synced mark_synced wrapping statement writes
    mark_job_synced-IsWithin id sap_id s h = elim (Bool-cases (round.env.fault s.calls)) [
      | inl lost ↦ rw lost h
      | inr sent ↦ rw sent (
          synced_tables-IsWithin id sap_id round.env.now s.tables
            (find_row (has_job_id id) s.tables.jobs) h)
    ]

    after_mark_synced-IsWithin :
        (job : Job) (r : Result (Unit {0})) (s : Db)
        → IsWithin s.tables.jobs
        → IsWithin (after_mark_synced cfg round job (r, s)).tables.jobs
    after_mark_synced-IsWithin job (Result.ok _) s h = h
    after_mark_synced-IsWithin job (Result.err e) s h = fail-IsWithin job _ _ _ s h

    after_reply-IsWithin :
        (job : Job) (reply : SapReply) (s : Db)
        → IsWithin s.tables.jobs
        → IsWithin (after_reply cfg round job reply s).tables.jobs
    unfolding handle_delivery_failure persist_delivery_success
    after_reply-IsWithin job (SapReply.failed e) s h = fail-IsWithin job _ _ _ s h
    after_reply-IsWithin job (SapReply.synced sap_id) s h =
        let (r, s') = mark_job_synced job.id sap_id round.env s in
        after_mark_synced-IsWithin job r s' (mark_job_synced-IsWithin job.id sap_id s h)

module _ (cfg : Config) (round : Round) (job : Job) (w : World) where
  sent_one : Dispatch
  sent_one = record { job_id = job.id; attempt = job.attempts; order_id = job.details.order_id }

  -- The request uses the attempt up.
  send-IsWithin :
      IsReady cfg w.dispatches job w.db.tables.jobs
      → ltb (max_total_attempts cfg) job.attempts ≡ false
      → IsWithin cfg (sent_one ∷ w.dispatches) w.db.tables.jobs
  unfolding count sent_one
  send-IsWithin h left k m = ground (arith, h.within k m, h.unused k m, h.attempt)

  pub deliver-IsWithin :
      IsReady cfg w.dispatches job w.db.tables.jobs
      → IsWithin cfg (deliver cfg round job w).dispatches (deliver cfg round job w).db.tables.jobs
  unfolding deliver sent_one
  deliver-IsWithin h = elim (Bool-cases (is_dead job.status)) [
    | inl dead ↦ rw dead h.within
    | inr live ↦
        rw live (elim (Bool-cases (recovery_window_expired cfg job.waiting_since round.now)) [
          | inl expired ↦ rw expired (fail-IsWithin cfg w.dispatches round job _ _ _ w.db h.within)
          | inr open_window ↦
              rw open_window (elim (Bool-cases (ltb (max_total_attempts cfg) job.attempts)) [
                | inl spent ↦
                    rw spent (fail-IsWithin cfg w.dispatches round job _ _ _ w.db h.within)
                | inr left ↦ rw left (
                    after_reply-IsWithin cfg (sent_one ∷ w.dispatches) round job
                      (round.reply job.details) w.db (send-IsWithin h left))
              ])
        ])
  ]

locked-IsReady :
    (cfg : Config) (ds : List Dispatch) (now : Time) (t : Tables) (job : Job) (o : OrderRow)
    (j : JobRow) {t' : Tables}
    → IsWithin cfg ds t.jobs
    → Claims now t job t' o j
    → Memᴰ j t.jobs
    → IsReady cfg ds job (lock_job j.id now t).jobs
unfolding lock_job
locked-IsReady cfg ds now t job o j h c m = record {
  within = λ k n.
      let (r, m', e) = mem-update_rows _ _ t.jobs k n in
      ground (arith, h r m', ap JobRow.id e, ap JobRow.attempts e);
  unused = λ k n same.
      let (r, m', e) = mem-update_rows _ _ t.jobs k n in
      ground (arith, h r m', c.same_id, ap JobRow.id e, ap JobRow.attempts e);
  attempt = ground (arith, h j m, c.same_id, c.attempt);
}

-- A claim makes its job ready.
pub claim-IsReady :
    (cfg : Config) (round : Round) (w : World) (job : Job)
    → IsWithin cfg w.dispatches w.db.tables.jobs
    → (claim_due round.locked round.env w.db).0 ≡ Result.ok (some job)
    → IsReady cfg w.dispatches job (claim_due round.locked round.env w.db).1.tables.jobs
claim-IsReady cfg round w job h claimed =
    let (o, j, found, c) = claim_due_locks round.locked round.env w.db job claimed in
    let first : IsFirst round.env.now round.locked w.db.tables.orders w.db.tables.jobs
        (some (o, j)) =
      subst (IsFirst round.env.now round.locked w.db.tables.orders w.db.tables.jobs) found
        (claim_job-IsFirst round.env.now round.locked w.db.tables) in
    rw c.locked_row (locked-IsReady cfg w.dispatches round.env.now w.db.tables job o j h c first.0)
