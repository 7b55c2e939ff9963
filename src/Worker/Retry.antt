-- ===== src/Worker/Retry.antt =====
-- The retry policy of internal/sync/worker.go. Durations are counted in nanoseconds; a job's number of
-- attempts starts at 0 in its table and only grows, so it is a natural number.
pub mod Bounds
pub mod Settings
use order_sync.Base.{
  ℕ, zero, suc, ◌+◌, ◌-◌, ◌*◌, ◌^◌, Bool, true, false, Option, none, some, ltb, leb, ◌==◌,
  if◌then◌else◌,
}
use order_sync.Base.Int.{ℤ, pos, pos_part, neg_part, ltb_ℤ, leb_ℤ, ◌*ℤ◌, wrap_64}
use order_sync.Config.{
  Config, default_sap_max_attempts, default_sap_max_total_attempts,
  default_sap_recovery_window_seconds, default_sap_listener_reconnect_max_ms,
}
use order_sync.Contracts.{Time, SyncStatus}

abbrev or_default : ℤ → ℤ → ℤ
or_default value fallback = if leb_ℤ value (pos 0) then fallback else value

-- maxAttempts and maxTotalAttempts; both are positive.
unfoldable pub max_attempts : Config → ℕ
max_attempts cfg = pos_part (or_default cfg.sap_max_attempts default_sap_max_attempts)

unfoldable pub max_total_attempts : Config → ℕ
max_total_attempts cfg =
    pos_part (or_default cfg.sap_max_total_attempts default_sap_max_total_attempts)

-- `time.Duration(maxMS) * time.Millisecond`, an int64 that may wrap around.
unfoldable pub listener_reconnect_max_delay : Config → ℤ
listener_reconnect_max_delay cfg = wrap_64 (
    or_default cfg.sap_listener_reconnect_max_ms default_sap_listener_reconnect_max_ms
    *ℤ pos (10 ^ 6))

unfoldable pub recovery_window : Config → ℤ
recovery_window cfg =
    wrap_64 (
      or_default cfg.sap_recovery_window_seconds default_sap_recovery_window_seconds
      *ℤ pos (10 ^ 9))

-- `!now.Before(waitingSince.Add(window))`
unfoldable pub recovery_window_expired : Config → Option Time → Time → Bool
recovery_window_expired cfg none now = false
recovery_window_expired cfg (some since) now =
    leb (since + pos_part (recovery_window cfg)) (now + neg_part (recovery_window cfg))

-- The loop of RetryDelayMS, for the rounds that are left.
unfoldable pub retry_loop : ℕ → ℕ → ℕ
retry_loop zero delay = if ltb 60000 delay then 60000 else delay
retry_loop (suc n) delay =
    let rest = retry_loop n (delay * 2) in if leb 60000 delay then 60000 else rest

-- RetryDelayMS: the loop runs for `i` from 1 below the attempt.
unfoldable pub retry_delay_ms : ℕ → ℕ
unfolding retry_loop
retry_delay_ms attempt = retry_loop (attempt - 1) 1000

-- jitteredDelay, for `random n` the answer of rand.Int63n(n).
unfoldable pub jittered_delay : (ℕ → ℕ) → ℕ → ℕ
jittered_delay random base = if base == 0 then 0 else random (base + 1)

abbrev pub max_retry_delay : ℕ
max_retry_delay = 60 * 10 ^ 9

-- The delay by the error's `RetryAfter`, if it has one that is not negative.
abbrev pub by_header : Option ℤ → ℕ → ℕ
by_header none delay = delay
by_header (some header) delay = if leb_ℤ (pos 0) header then pos_part header else delay

-- retryDelay.
unfoldable pub retry_delay : (ℕ → ℕ) → Option ℤ → ℕ → ℕ
unfolding jittered_delay
retry_delay random header attempt =
    let delay = by_header header (jittered_delay random (retry_delay_ms attempt * 10 ^ 6)) in
    if ltb max_retry_delay delay then max_retry_delay else delay

-- failureState, for the delay that retryDelay gives.
unfoldable pub failure_state : Config → ℕ → Time → Bool → ℕ → SyncStatus × Time
failure_state cfg attempts now retryable delay =
    if retryable
    then (if leb (max_total_attempts cfg) attempts then (SyncStatus.dead, now) else (
      (if leb (max_attempts cfg) attempts then SyncStatus.waiting else SyncStatus.pending),
      now + delay,
    ))
    else (SyncStatus.dead, now)
