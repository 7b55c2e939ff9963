-- ===== src/Tests/Sap.antt =====
-- Answers of SAP: a success, a 503 and a 429 with Retry-After.
use order_sync.Base.{
  ℕ, ◌+◌, ◌-◌, ◌^◌, ◌≤◌, ◌<◌, min, String, false, true, none, some, [], ◌∷◌, ◌++◌, find_row, ◌≡◌,
  ◌≢◌, refl, ◌⊎◌, ◌↔◌, inr, arith, is_empty, text_eq,
}
use order_sync.Base.Int.{pos}
use order_sync.Contracts.{SyncStatus}
use order_sync.Worker.Deliver.{SapError, SapReply, is_retryable}
use order_sync.Worker.Retry.{
  max_attempts, max_total_attempts, max_retry_delay, failure_state, retry_delay,
}
use order_sync.Sap.Response.{
  Parsers, Body, HttpResponse, Exchange, parse_retry_after, retryable_status, parse_response,
  post_order,
}
use order_sync.Sap.Outcome.{parse_response-synced}
use order_sync.Sap.Retries.{RetryCode, http_error_outcome}
use order_sync.Sap.Inflight.{
  Entry, Started, has_key, start_call, begin_sync, finish_call, await_call,
}
use order_sync.Sap.Interleaving.{System, ◌⟶◌, new_client, Reachable}
use order_sync.Sap.Waiters.{no_caller_stranded}
use order_sync.Sap.Callers.{one_request_per_key, joined_gets_reply}
use order_sync.Tests.Data.{cfg}

abbrev parsers : Parsers
parsers = record {
  parse_int = λ s. some (pos 7);
  parse_http_time = λ s. none;
  limit_reader = λ n s. s;
  unmarshal = λ s. some ("success", "SAP-1");
}

abbrev response_with : ℕ → HttpResponse
response_with code = record { status_code = code; retry_after = "7"; body = Body.complete "{}" }

abbrev http_503 : SapError
http_503 = record { retryable = some true; retry_after = none; text = "SAP returned HTTP %d" }

parse_response-synced_example :
    (parse_response parsers (response_with 201) 1000 ≡ SapReply.synced "SAP-1") ↔ (
      (200 ≤ 201)
      × (201 < 300)
      × ((text : String) × (Body.complete "{}" ≡ Body.complete text)
          × (parsers.unmarshal (parsers.limit_reader (2 ^ 20) text) ≡ some ("success", "SAP-1")))
      × (is_empty "SAP-1" ≡ false))
parse_response-synced_example = parse_response-synced parsers (response_with 201) 1000 "SAP-1"

answer_503 :
    post_order parsers (Exchange.answered (response_with 503)) 1000 ≡ SapReply.failed http_503
unfolding post_order parse_response retryable_status
answer_503 = refl

abbrev unavailable_503 : ℕ
unavailable_503 = 503

http_error_outcome_example :
    let (status, due) =
      failure_state cfg 2 1000
        (is_retryable http_503)
        (retry_delay (λ n. n - 1) http_503.retry_after 2) in
    (((status ≡ SyncStatus.dead) ↔ ((¬ RetryCode 503) ⊎ (max_total_attempts cfg ≤ 2)))
      × ((status ≡ SyncStatus.waiting)
          ↔ (RetryCode 503 × (2 < max_total_attempts cfg) × (max_attempts cfg ≤ 2)))
      × ((status ≡ SyncStatus.pending)
          ↔ (RetryCode 503 × (2 < max_total_attempts cfg) × (2 < max_attempts cfg))))
    × ((status ≡ SyncStatus.dead → due ≡ 1000)
        × (status ≢ SyncStatus.dead → unavailable_503 ≢ 429 → due ≡ 1000 + 2000000000)
        × (status ≢ SyncStatus.dead
            → unavailable_503 ≡ 429
            → parse_retry_after parsers "7" 1000 ≡ none
            → due ≡ 1000 + 2000000000)
        × (status ≢ SyncStatus.dead
            → (h : ℕ) → unavailable_503 ≡ 429
            → parse_retry_after parsers "7" 1000 ≡ some (pos h)
            → due ≡ 1000 + min h max_retry_delay)
        × (2000000000 ≤ 2000000000)
        × (2000000000 ≤ max_retry_delay))
http_error_outcome_example =
    http_error_outcome parsers (response_with 503) 1000 http_503 (inr (omega arith)) answer_503 cfg
      (λ n. n - 1) (λ n h. omega arith) 2 1000

-- One caller has begun, and its request is under way.
abbrev entry : Entry
entry = record { key = "A-1"; call = record { id = 0; body = "{}" } }

abbrev one_caller : System
one_caller = record {
  client = record { inflight = entry ∷ []; done = []; next = 1 };
  posting = entry ∷ [];
  waiting = [];
}

begins : (begin_sync "A-1" (some "{}") new_client.client).0 ≡ Started.owner entry.call
unfolding begin_sync start_call find_row is_empty
begins = refl

one_caller-Reachable : Reachable one_caller
unfolding begin_sync start_call find_row is_empty
one_caller-Reachable =
    Reachable.step new_client one_caller Reachable.start
      (◌⟶◌.owns new_client "A-1" (some "{}") entry.call begins)

one_request_per_key_example :
    (find_row (has_key "A-1") ([] ++ []) ≡ none) × (one_caller.client.inflight ≡ one_caller.posting)
one_request_per_key_example = one_request_per_key one_caller one_caller-Reachable [] entry [] refl

second_joins : (begin_sync "A-1" (some "{}") one_caller.client).0 ≡ Started.joined entry.call
unfolding begin_sync start_call find_row is_empty text_eq
second_joins = refl

joined_gets_reply_example :
    (some "{}" ≡ some entry.call.body)
    × (find_row (has_key "A-1") one_caller.posting ≡ some entry)
    × (await_call entry.call (finish_call entry (SapReply.synced "SAP-1") one_caller.client)
        ≡ some (SapReply.synced "SAP-1"))
joined_gets_reply_example =
    joined_gets_reply one_caller one_caller-Reachable "A-1" (some "{}") entry.call second_joins
      (SapReply.synced "SAP-1")

abbrev two_callers : System
two_callers = record one_caller { waiting = entry ∷ [] }

two_callers-Reachable : Reachable two_callers
unfolding begin_sync start_call find_row is_empty text_eq
two_callers-Reachable =
    Reachable.step one_caller two_callers one_caller-Reachable
      (◌⟶◌.joins one_caller "A-1" (some "{}") entry.call second_joins)

no_caller_stranded_example :
    (find_row (has_key "A-1") two_callers.posting ≡ some entry)
    ⊎ ((reply : SapReply) × (await_call entry.call two_callers.client ≡ some reply))
no_caller_stranded_example = no_caller_stranded two_callers two_callers-Reachable [] entry [] refl
