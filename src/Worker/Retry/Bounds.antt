-- ===== src/Worker/Retry/Bounds.antt =====
-- The retry policy in closed form.
use native.Mathlib.Nat.{pow-suc}
use order_sync.Base.{
  ℕ, zero, suc, ◌+◌, ◌-◌, ◌*◌, ◌^◌, ◌≤◌, ◌<◌, min, Bool, true, false, Option, none, some, ◌≡◌, ◌⊎◌,
  ◌↔◌, ◌≢◌, arith,
}
use order_sync.Base.Int.{ℤ, pos}
use order_sync.Config.{Config}
use order_sync.Contracts.{Time, SyncStatus}
use order_sync.Worker.Retry.{
  max_attempts, max_total_attempts, retry_loop, retry_delay_ms, max_retry_delay, retry_delay,
  failure_state,
}

pow_pos : (n : ℕ) → 0 < 2 ^ n
pow_pos zero = omega arith
pow_pos (suc n) = rw pow-suc (omega (arith, pow_pos n))

retry_loop-eq-min : (n delay : ℕ) → retry_loop n delay ≡ min 60000 (delay * 2 ^ n)
unfolding retry_loop
retry_loop-eq-min zero delay = ground arith
retry_loop-eq-min (suc n) delay =
    rw pow-suc (grind (arith, retry_loop-eq-min n (delay * 2), pow_pos n))

-- The base delay before attempt `n + 1` is 1 s doubled for each earlier attempt, and 60 s at most.
pub retry_delay_ms_closed :
    (attempt : ℕ) → retry_delay_ms attempt ≡ min 60000 (1000 * 2 ^ (attempt - 1))
unfolding retry_delay_ms
retry_delay_ms_closed attempt = retry_loop-eq-min (attempt - 1) 1000

-- With rand.Int63n(n) below n: the delay is 60 s at most; with no Retry-After it is at most the base
-- delay of the attempt; with a Retry-After of `h` it is `h`, or 60 s if that is less.
pub retry_delay_bounds :
    (random : ℕ → ℕ)
    → ((n : ℕ) → 0 < n → random n < n)
    → (attempt h : ℕ) (header : Option ℤ)
    → (retry_delay random header attempt ≤ max_retry_delay)
      × (retry_delay random none attempt ≤ min 60000 (1000 * 2 ^ (attempt - 1)) * 10 ^ 6)
      × (retry_delay random (some (pos h)) attempt ≡ min h max_retry_delay)
unfolding retry_delay
retry_delay_bounds random below attempt h header = (
  ground arith,
  ground (arith, retry_delay_ms_closed attempt, below (retry_delay_ms attempt * 10 ^ 6 + 1)),
  ground arith,
)

pub retry_delay_drawn :
    (random : ℕ → ℕ) (attempt : ℕ)
    → let base = min 60000 (1000 * 2 ^ (attempt - 1)) * 10 ^ 6 in
      random (base + 1) < base + 1 → retry_delay random none attempt ≡ random (base + 1)
unfolding retry_delay
retry_delay_drawn random attempt drawn =
    rw (retry_delay_ms_closed attempt) (ground (arith, drawn, pow_pos (attempt - 1)))

-- After a failed delivery the job is DEAD exactly when the error is final or the attempts are used up,
-- WAITING exactly when it may be tried again and has had the attempts before waiting, and PENDING
-- otherwise; a DEAD job is due now, and any other after the delay.
pub failure_state_cases :
    (cfg : Config) (attempts : ℕ) (now : Time) (retryable : Bool) (delay : ℕ)
    → let (status, due) = failure_state cfg attempts now retryable delay in
      ((status ≡ SyncStatus.dead) ↔ ((retryable ≡ false) ⊎ (max_total_attempts cfg ≤ attempts)))
      × ((status ≡ SyncStatus.waiting) ↔ (
          (retryable ≡ true) × (attempts < max_total_attempts cfg) × (max_attempts cfg ≤ attempts)))
      × ((status ≡ SyncStatus.pending) ↔ (
          (retryable ≡ true) × (attempts < max_total_attempts cfg) × (attempts < max_attempts cfg)))
      × ((status ≡ SyncStatus.dead) → due ≡ now)
      × (status ≢ SyncStatus.dead → due ≡ now + delay)
unfolding failure_state
failure_state_cases cfg attempts now retryable delay = (
  (ground arith, ground arith),
  (ground arith, ground arith),
  (ground arith, ground arith),
  ground arith,
  ground arith,
)
