-- ===== src/Sap/Retries.antt =====
-- What becomes of a job whose delivery SAP answered with an error: http_client.go together with the
-- retry policy of internal/sync/worker.go.
use order_sync.Base.{
  ℕ, ◌+◌, ◌-◌, ◌*◌, ◌^◌, min, ◌≤◌, ◌<◌, true, false, none, some, ◌≡◌, ◌≢◌, ◌⊎◌, ◌↔◌, inl, inr,
  arith, Bool, Bool-cases, ap, ◌∙◌,
}
use order_sync.Base.Int.{pos}
use order_sync.Config.{Config}
use order_sync.Contracts.{Time, SyncStatus}
use order_sync.Worker.Deliver.{SapError, SapReply, is_retryable}
use order_sync.Worker.Retry.{
  max_attempts, max_total_attempts, max_retry_delay, failure_state, retry_delay,
}
use order_sync.Worker.Retry.Bounds.{failure_state_cases, retry_delay_bounds, retry_delay_drawn}
use order_sync.Sap.Response.{
  Parsers, HttpResponse, Exchange, parse_retry_after, retryable_status, parse_response, post_order,
}

-- The codes that docs/domain.md names for a retry.
abbrev pub RetryCode : ℕ → Type 0
RetryCode code = (code ≡ 429) ⊎ (code ≡ 500) ⊎ (code ≡ 502) ⊎ (code ≡ 503) ⊎ (code ≡ 504)

retryable_status-RetryCode : (code : ℕ) → (retryable_status code ≡ true) ↔ RetryCode code
unfolding retryable_status
retryable_status-RetryCode code = (ground arith, ground arith)

retryable_status-false : (code : ℕ) → (retryable_status code ≡ false) ↔ (¬ RetryCode code)
retryable_status-false code = (
  λ h r. ground (arith, h, (retryable_status-RetryCode code).1 r),
  λ n. elim (Bool-cases (retryable_status code)) [
    | inl h ↦ absurd (n ((retryable_status-RetryCode code).0 h))
    | inr h ↦ h
  ],
)

module _ (p : Parsers) (response : HttpResponse) (now : Time) (e : SapError)
    (outside : (response.status_code < 200) ⊎ (300 ≤ response.status_code))
    (failed : parse_response p response now ≡ SapReply.failed e) where
  failed-retryable : is_retryable e ≡ retryable_status response.status_code
  unfolding parse_response
  failed-retryable = ground arith

  failed-retry_after :
      response.status_code ≡ 429 → e.retry_after ≡ parse_retry_after p response.retry_after now
  unfolding parse_response
  failed-retry_after = ground arith

  failed-no_retry_after : response.status_code ≢ 429 → e.retry_after ≡ none
  unfolding parse_response
  failed-no_retry_after = ground arith

-- The cases of failureState for a test that decides `P`.
outcome_of :
    {P : Type 0} (cfg : Config) (attempts : ℕ) (t : Time) (r : Bool) (delay : ℕ)
    → ((r ≡ true) ↔ P)
    → ((r ≡ false) ↔ (¬ P))
    → let status = (failure_state cfg attempts t r delay).0 in
      ((status ≡ SyncStatus.dead) ↔ ((¬ P) ⊎ (max_total_attempts cfg ≤ attempts)))
      × ((status ≡ SyncStatus.waiting)
          ↔ (P × (attempts < max_total_attempts cfg) × (max_attempts cfg ≤ attempts)))
      × ((status ≡ SyncStatus.pending)
          ↔ (P × (attempts < max_total_attempts cfg) × (attempts < max_attempts cfg)))
outcome_of cfg attempts t r delay when unless =
    let (dead, waiting, pending, _, _) = failure_state_cases cfg attempts t r delay in
    (
      (
        λ h. elim (dead.0 h) [ inl final ↦ inl (unless.0 final) | inr used ↦ inr used ],
        λ h. dead.1 (elim h [ inl final ↦ inl (unless.1 final) | inr used ↦ inr used ]),
      ),
      (
        λ h. let (again, left, more) = waiting.0 h in (when.0 again, left, more),
        λ h. let (again, left, more) = h in waiting.1 (when.1 again, left, more),
      ),
      (
        λ h. let (again, left, more) = pending.0 h in (when.0 again, left, more),
        λ h. let (again, left, more) = h in pending.1 (when.1 again, left, more),
      ),
    )

-- A delivery that SAP answered with a code outside 200 to 299, for rand.Int63n(n) below n. Say that the
-- code is one for a retry when it is 429, 500, 502, 503 or 504. The job is DEAD exactly when it is not
-- or the total attempts are used up; WAITING exactly when it is, they are not, and the attempts before
-- waiting are; PENDING exactly when it is and neither are. A DEAD job is due at once. Any other is due after the
-- delay drawn for the attempt, which is at most the attempt's base delay and 60 s; but where a 429 has a
-- Retry-After that parseRetryAfter accepts, after that, or 60 s if that is less.
pub http_error_outcome :
    (p : Parsers) (response : HttpResponse) (now : Time) (e : SapError)
    → (response.status_code < 200) ⊎ (300 ≤ response.status_code)
    → post_order p (Exchange.answered response) now ≡ SapReply.failed e
    → (cfg : Config) (random : ℕ → ℕ) → ((n : ℕ) → 0 < n → random n < n)
    → (attempts : ℕ) (t : Time)
    → let (status, due) =
        failure_state cfg attempts t (is_retryable e) (retry_delay random e.retry_after attempts) in
      let base = min 60000 (1000 * 2 ^ (attempts - 1)) * 10 ^ 6 in
      (((status ≡ SyncStatus.dead)
          ↔ ((¬ RetryCode response.status_code) ⊎ (max_total_attempts cfg ≤ attempts)))
        × ((status ≡ SyncStatus.waiting) ↔ (
            RetryCode response.status_code
            × (attempts < max_total_attempts cfg)
            × (max_attempts cfg ≤ attempts)))
        × ((status ≡ SyncStatus.pending) ↔ (
            RetryCode response.status_code
            × (attempts < max_total_attempts cfg)
            × (attempts < max_attempts cfg))))
      × ((status ≡ SyncStatus.dead → due ≡ t)
          × (status ≢ SyncStatus.dead → response.status_code ≢ 429 → due ≡ t + random (base + 1))
          × (status ≢ SyncStatus.dead
              → response.status_code ≡ 429
              → parse_retry_after p response.retry_after now ≡ none
              → due ≡ t + random (base + 1))
          × (status ≢ SyncStatus.dead
              → (h : ℕ) → response.status_code ≡ 429
              → parse_retry_after p response.retry_after now ≡ some (pos h)
              → due ≡ t + min h max_retry_delay)
          × (random (base + 1) ≤ base)
          × (base ≤ max_retry_delay))
unfolding post_order
http_error_outcome p response now e outside failed cfg random below attempts t =
    let delay = retry_delay random e.retry_after attempts in
    let retryable = retryable_status response.status_code in
    let base = min 60000 (1000 * 2 ^ (attempts - 1)) * 10 ^ 6 in
    let (_, _, _, at_once, later) = failure_state_cases cfg attempts t retryable delay in
    let drawn : random (base + 1) < base + 1 = below (base + 1) (omega arith) in
    let none_after = failed-no_retry_after p response now e outside failed in
    let header_after = failed-retry_after p response now e outside failed in
    let after : e.retry_after ≡ none → t + delay ≡ t + random (base + 1) = λ h.
      ap (t +◌)
        (ap (λ a. retry_delay random a attempts) h ∙ retry_delay_drawn random attempts drawn) in
    rw (failed-retryable p response now e outside failed) (
      outcome_of cfg attempts t retryable delay (retryable_status-RetryCode response.status_code)
          (retryable_status-false response.status_code),
      (
        at_once,
        λ live other. later live ∙ after (none_after other),
        λ live code absent. later live ∙ after (header_after code ∙ absent),
        λ live h code header.
            later live
            ∙ ap (t +◌) (
                ap (λ a. retry_delay random a attempts) (header_after code ∙ header)
                ∙ (retry_delay_bounds random below attempts h none).2),
        omega (arith, drawn),
        omega arith,
      ),
    )
