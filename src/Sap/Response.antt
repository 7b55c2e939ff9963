-- ===== src/Sap/Response.antt =====
-- http_client.go: what the client makes of SAP's answer, and of an error on the way.
use order_sync.Base.{
  ℕ, ◌*◌, ◌-◌, ◌^◌, String, Bool, false, not, ◌&&◌, ◌||◌, Option, none, some, ltb, leb, ◌==◌,
  text_eq, is_empty, trim_space, min, if◌then◌else◌,
}
use order_sync.Base.Int.{ℤ, pos}
use order_sync.Contracts.{Time}
use order_sync.Worker.Deliver.{SapReply}

-- strconv.ParseInt(_, 10, 64), http.ParseTime, io.LimitReader, and the fields `status` and
-- `sap_internal_id` that json.Unmarshal finds.
pub record Parsers : Type 0 where
  pub parse_int : String → Option ℤ
  pub parse_http_time : String → Option Time
  pub limit_reader : ℕ → String → String
  pub unmarshal : String → Option (String × String)

-- What errors.Is and errors.As say of an error of the transport, and its `Timeout()`.
pub record TransportError : Type 0 where
  pub is_canceled : Bool
  pub is_deadline_exceeded : Bool
  pub is_unexpected_eof : Bool
  pub is_op_error : Bool
  pub is_dns_error : Bool
  pub is_net_error : Bool
  pub timeout : Bool

-- A response, whose body may break off while it is read.
pub data Body : Type 0 where
  complete : String → Body
  broken : TransportError → Body

pub record HttpResponse : Type 0 where
  pub status_code : ℕ
  pub retry_after : String
  pub body : Body

-- wrapError and wrapErrorWithRetryAfter: the reply that carries the error.
abbrev pub wrap_error : String → Bool → SapReply
wrap_error text retryable =
    SapReply.failed (record { retryable = some retryable; retry_after = none; text = text })

abbrev pub wrap_error_with_retry_after : String → Bool → Option ℤ → SapReply
wrap_error_with_retry_after text retryable retry_after =
    SapReply.failed (record { retryable = some retryable; retry_after = retry_after; text = text })

-- `(1<<63-1)/int64(time.Second)`
abbrev pub max_seconds : ℕ
max_seconds = 9223372036

abbrev pub max_duration : ℕ
max_duration = 2 ^ 63 - 1

-- `date.Before(now)` and `date.Sub(now)`, which stops at the greatest duration.
abbrev pub until_date : Time → Option Time → Option ℤ
until_date now none = none
until_date now (some date) =
    if ltb date now then none else some (pos (min (date - now) max_duration))

abbrev pub seconds_or_date : Option ℤ → Time → Option Time → Option ℤ
seconds_or_date (some (pos n)) now date =
    if ltb max_seconds n then none else some (pos (n * 10 ^ 9))
seconds_or_date _ now date = until_date now date

-- parseRetryAfter; `none` is the answer `false`.
unfoldable pub parse_retry_after : Parsers → String → Time → Option ℤ
parse_retry_after p value now =
    let v = trim_space value in
    if is_empty v then none else seconds_or_date (p.parse_int v) now (p.parse_http_time v)

-- retryableTransportError.
unfoldable pub retryable_transport_error : TransportError → Bool
retryable_transport_error e =
    if e.is_canceled && not e.is_deadline_exceeded
    then false
    else ((e.is_deadline_exceeded || e.is_unexpected_eof)
        || e.is_op_error
        || e.is_dns_error
        || (e.is_net_error && e.timeout))

-- retryableStatus.
unfoldable pub retryable_status : ℕ → Bool
retryable_status code = code == 429 || code == 500 || code == 502 || code == 503 || code == 504

abbrev pub decoded : Option (String × String) → SapReply
decoded none = wrap_error "decode SAP response for order %q: %w" false
decoded (some (status, sap_id)) =
    if text_eq status "success"
    then (if is_empty sap_id
        then wrap_error "SAP response did not contain sap_internal_id" false
        else SapReply.synced sap_id)
    else wrap_error "SAP response status was %q, want %q" false

abbrev pub read_body : Parsers → Body → SapReply
read_body p (Body.broken e) =
    wrap_error "read SAP response for order %q: %w" (retryable_transport_error e)
read_body p (Body.complete data_read) = decoded (p.unmarshal (p.limit_reader (2 ^ 20) data_read))

-- parseResponse.
unfoldable pub parse_response : Parsers → HttpResponse → Time → SapReply
unfolding parse_retry_after retryable_transport_error retryable_status
parse_response p response now =
    if ltb response.status_code 200 || leb 300 response.status_code
    then (if response.status_code == 429
        then wrap_error_with_retry_after "SAP returned HTTP %d"
            (retryable_status response.status_code) (parse_retry_after p response.retry_after now)
        else wrap_error "SAP returned HTTP %d" (retryable_status response.status_code))
    else read_body p response.body

-- How the request went: it could not be made, it got no answer, or it was answered.
pub data Exchange : Type 0 where
  not_created : Exchange
  not_answered : TransportError → Exchange
  answered : HttpResponse → Exchange

-- postOrder, for the exchange that http.NewRequestWithContext and client.Do bring.
unfoldable pub post_order : Parsers → Exchange → Time → SapReply
unfolding parse_response
post_order p Exchange.not_created now = wrap_error "create SAP request for order %q: %w" false
post_order p (Exchange.not_answered e) now =
    wrap_error "send SAP request for order %q: %w" (retryable_transport_error e)
post_order p (Exchange.answered response) now = parse_response p response now
