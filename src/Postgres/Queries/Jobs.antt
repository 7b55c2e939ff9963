-- ===== src/Postgres/Queries/Jobs.antt =====
-- sync_job_queries.go.
use order_sync.Base.{
  ℕ, suc, ◌+◌, ◌*◌, ◌^◌, String, Bool, true, false, not, ◌&&◌, ◌||◌, Option, none, some, List, [],
  ◌∷◌, ◌==◌, leb, ltb, if◌then◌else◌, find_row, update_rows,
}
use order_sync.Contracts.{Time, SyncStatus, OrderState, OrderItem}
use order_sync.Postgres.Schema.{OrderRow, JobRow, Tables}
use order_sync.Postgres.Queries.Orders.{has_id, find_items}

-- INTERVAL '2 minutes'
abbrev pub lock_timeout : ℕ
lock_timeout = 120 * 10 ^ 9

unfoldable pub is_scheduled : SyncStatus → Bool
is_scheduled SyncStatus.pending = true
is_scheduled SyncStatus.waiting = true
is_scheduled _ = false

unfoldable pub is_processing : SyncStatus → Bool
is_processing SyncStatus.processing = true
is_processing _ = false

abbrev pub is_cancelled_order : OrderState → Bool
is_cancelled_order OrderState.cancelled = true
is_cancelled_order _ = false

-- `locked_at <= now - INTERVAL '2 minutes'`, which is not true of a null.
abbrev pub lock_expired : Time → Option Time → Bool
lock_expired now none = false
lock_expired now (some t) = leb (t + lock_timeout) now

-- The WHERE of ClaimJob, for a job and its order.
unfoldable pub is_claimable : Time → OrderRow → JobRow → Bool
unfolding is_scheduled is_processing
is_claimable now o j =
    not (is_cancelled_order o.payment_status)
    && ((is_scheduled j.status && leb j.due_at now)
        || (is_processing j.status && lock_expired now j.locked_at))

-- The ORDER BY of ClaimJob.
unfoldable pub claim_key : JobRow → Time
unfolding is_scheduled
claim_key j =
    if is_scheduled j.status
    then j.due_at
    else elim j.locked_at [ none ↦ 0 | some t ↦ t + lock_timeout ]

abbrev pub Candidate : Type 0
Candidate = OrderRow × JobRow

abbrev pub earlier : Candidate → Option Candidate → Option Candidate
earlier c none = some c
earlier c (some d) = if ltb (claim_key d.1) (claim_key c.1) then some d else some c

abbrev pub consider_found : Time → JobRow → Option OrderRow → Option Candidate → Option Candidate
consider_found now j none best = best
consider_found now j (some o) best = if is_claimable now o j then earlier (o, j) best else best

abbrev pub consider : Time → List OrderRow → JobRow → Option Candidate → Option Candidate
consider now orders j = consider_found now j (find_row (has_id j.order_id) orders)

-- The first of the claimable jobs, by the key, that no other transaction has locked.
unfoldable pub claim_from : Time → (ℕ → Bool) → List OrderRow → List JobRow → Option Candidate
claim_from now locked orders [] = none
claim_from now locked orders (j ∷ jobs) =
    let rest = claim_from now locked orders jobs in
    if locked j.id then rest else consider now orders j rest

-- ClaimJob; `locked` tells the rows that SKIP LOCKED passes over.
unfoldable pub claim_job : Time → (ℕ → Bool) → Tables → Option Candidate
unfolding claim_from
claim_job now locked t = claim_from now locked t.orders t.jobs

abbrev pub has_job_id : ℕ → JobRow → Bool
has_job_id id j = j.id == id

-- The SET list of LockJob.
abbrev pub locked_row : Time → JobRow → JobRow
locked_row now j = record j {
  status = SyncStatus.processing;
  locked_at = some now;
  attempts = suc j.attempts;
}

-- LockJob.
unfoldable pub lock_job : ℕ → Time → Tables → Tables
lock_job id now t = record t { jobs = update_rows (has_job_id id) (locked_row now) t.jobs }

-- JobItems.
unfoldable pub job_items : ℕ → Tables → List OrderItem
unfolding find_items
job_items id t = elim (find_row (has_job_id id) t.jobs) [
  | none ↦ []
  | some j ↦ find_items j.order_id t
]

-- The SET list of MarkSynced.
abbrev pub synced_row : String → Time → JobRow → JobRow
synced_row sap_id now j = record j {
  status = SyncStatus.synced;
  sap_internal_id = some sap_id;
  synced_at = some now;
  locked_at = none;
  waiting_since = none;
  last_error = none;
}

-- `updated_job` of MarkSynced returns the job's order, whose sap_id is set then.
abbrev pub synced_tables : ℕ → String → Time → Tables → Option JobRow → Tables
synced_tables id sap_id now t none = t
synced_tables id sap_id now t (some job) = record t {
  orders = update_rows (has_id job.order_id) (λ r. record r { sap_id = some sap_id }) t.orders;
  jobs = update_rows (has_job_id id) (synced_row sap_id now) t.jobs;
}

-- MarkSynced.
unfoldable pub mark_synced : ℕ → String → Time → Tables → Tables
mark_synced id sap_id now t = synced_tables id sap_id now t (find_row (has_job_id id) t.jobs)

-- The CASE of `waiting_since`.
abbrev pub waiting_from : SyncStatus → Option Time → Time → Option Time
waiting_from SyncStatus.waiting none now = some now
waiting_from SyncStatus.waiting (some t) now = some t
waiting_from _ _ now = none

-- The SET list of MarkFailed.
abbrev pub failed_row : SyncStatus → Time → String → Time → JobRow → JobRow
failed_row status due_at message now j = record j {
  status = status;
  due_at = due_at;
  locked_at = none;
  waiting_since = waiting_from status j.waiting_since now;
  last_error = some message;
}

-- MarkFailed.
unfoldable pub mark_failed : ℕ → SyncStatus → Time → String → Time → Tables → Tables
mark_failed id status due_at message now t = record t {
  jobs = update_rows (has_job_id id) (failed_row status due_at message now) t.jobs;
}

-- The wake-up of one row in NextWake: its due time, or the end of its lock.
abbrev pub wake_of : SyncStatus → JobRow → Option Time
wake_of SyncStatus.pending j = some j.due_at
wake_of SyncStatus.waiting j = some j.due_at
wake_of SyncStatus.processing j = elim j.locked_at [
  | none ↦ none
  | some t ↦ some (t + lock_timeout)
]
wake_of _ j = none

abbrev pub live_wake : JobRow → Option OrderRow → Option Time
live_wake j none = none
live_wake j (some o) = if is_cancelled_order o.payment_status then none else wake_of j.status j

abbrev pub earliest : Option Time → Option Time → Option Time
earliest none b = b
earliest (some a) none = some a
earliest (some a) (some b) = some (if leb a b then a else b)

unfoldable pub next_wake_from : List OrderRow → List JobRow → Option Time
next_wake_from orders [] = none
next_wake_from orders (j ∷ jobs) =
    earliest (live_wake j (find_row (has_id j.order_id) orders)) (next_wake_from orders jobs)

-- NextWake.
unfoldable pub next_wake : Tables → Option Time
unfolding next_wake_from
next_wake t = next_wake_from t.orders t.jobs
