-- ===== src/App/Router.antt =====
-- internal/app/router.go: the handlers. The headers and the log lines are left out; App.Routes has the routes and
-- the identifiers of requests.
use order_sync.Base.{
  ℕ, String, Bool, true, false, not, ◌&&◌, ◌||◌, Option, none, some, List, [], ◌∷◌, text_eq,
  is_empty, if◌then◌else◌,
}
use order_sync.Config.{Config}
use order_sync.Contracts.{
  Error, Result, Sentinel, WebhookResult, OrderStatus, ValidationIssue, is_error,
}
use order_sync.Orders.{get_order_status}
use order_sync.Payment.Webhook as PaymentWebhook
use order_sync.Payment.Service.{message_awaiting_shop_order}
use order_sync.Postgres.Schema.{Db, Env}
use order_sync.Postgres.Tx.{Tx}
use order_sync.Shop.Webhook as ShopWebhook
use order_sync.Transaction.{payment_process, shop_process}

-- What c.JSON is given besides the code.
pub data ReplyBody : Type 0 where
  error : String → ReplyBody
  -- the text of an error
  error_of : Error → ReplyBody
  issues : List ValidationIssue → ReplyBody
  result : WebhookResult → ReplyBody
  order : OrderStatus → ReplyBody
  health : ReplyBody

pub record HttpReply : Type 0 where
  pub code : ℕ
  pub body : ReplyBody

abbrev pub json : ℕ → ReplyBody → HttpReply
json code body = record { code = code; body = body }

-- An error of decoder.Decode: whether it is an http.MaxBytesError, whether its text contains
-- "unknown field", and its text.
pub record DecoderError : Type 0 where
  pub is_max_bytes : Bool
  pub is_unknown_field : Bool
  pub text : String

pub data Decoded (T : Type 0) : Type 0 where
  value : T → Decoded T
  broken : DecoderError → Decoded T

-- The second Decode: io.EOF, another value, or an error.
pub data Extra : Type 0 where
  end_of_input : Extra
  another_value : Extra
  broken_off : DecoderError → Extra

-- A request as the libraries read it: mime.ParseMediaType of Content-Type and the two calls of Decode.
pub record HttpRequest (T : Type 0) : Type 0 where
  pub secret : String
  pub media_type : Option String
  pub first : Decoded T
  pub extra : Extra

pub data DecodeError : Type 0 where
  request_body_too_big unsupported_type invalid_json : DecodeError
  unknown_field : String → DecodeError

pub data Decoding (T : Type 0) : Type 0 where
  complete : T → Decoding T
  failed : DecodeError → Decoding T

abbrev pub is_json : Option String → Bool
is_json none = false
is_json (some media_type) = text_eq media_type "application/json"

abbrev pub after_value : {T : Type 0} → T → Extra → Decoding T
after_value t Extra.end_of_input = Decoding.complete t
after_value t Extra.another_value = Decoding.failed DecodeError.invalid_json
after_value t (Extra.broken_off e) =
    Decoding.failed
      (if e.is_max_bytes then DecodeError.request_body_too_big else DecodeError.invalid_json)

abbrev pub decode_body : {T : Type 0} → Decoded T → Extra → Decoding T
decode_body (Decoded.value t) extra = after_value t extra
decode_body (Decoded.broken e) extra = Decoding.failed (
    if e.is_max_bytes
    then DecodeError.request_body_too_big
    else (if e.is_unknown_field
        then DecodeError.unknown_field e.text
        else DecodeError.invalid_json))

-- decode.
unfoldable pub decode : {T : Type 0} → HttpRequest T → Decoding T
decode r =
    if is_json r.media_type
    then decode_body r.first r.extra
    else Decoding.failed DecodeError.unsupported_type

-- writeDecodeError.
unfoldable pub write_decode_error : DecodeError → HttpReply
write_decode_error DecodeError.request_body_too_big =
    json 400 (ReplyBody.error "Request body too large")
write_decode_error DecodeError.unsupported_type =
    json 400 (ReplyBody.error "Unsupported Content-Type; expected application/json")
write_decode_error (DecodeError.unknown_field text) =
    json 400
      (ReplyBody.issues (record { code = "unrecognized_keys"; path = []; message = text } ∷ []))
write_decode_error DecodeError.invalid_json = json 400 (ReplyBody.error "Invalid JSON")

-- writeWebhookProcessError.
unfoldable pub write_webhook_process_error : Error → HttpReply
unfolding is_error
write_webhook_process_error e =
    if is_error e Sentinel.order_conflict || is_error e Sentinel.payment_conflict
    then json 409 (
        ReplyBody.error_of (
          if is_error e Sentinel.payment_conflict
          then Error.payment_payload_conflict
          else Error.order_payload_conflict))
    else (if is_error e Sentinel.finalized
          || is_error e Sentinel.digital
          || is_error e Sentinel.cannot_cancel
        then json 409 (ReplyBody.error_of e)
        else json 500 (ReplyBody.error "Internal server error"))

abbrev pub reply_of : (WebhookResult → ℕ) → Result WebhookResult → HttpReply
reply_of status (Result.err e) = write_webhook_process_error e
reply_of status (Result.ok r) = json (status r) (ReplyBody.result r)

module _ {T : Type 0} (process : T → Tx WebhookResult) (normalize : T → T)
    (validate : T → List ValidationIssue) (status : WebhookResult → ℕ) where
  abbrev pub process_valid : T → List ValidationIssue → Env → Db → HttpReply × Db
  process_valid payload (issue ∷ more) env s = (json 400 (ReplyBody.issues (issue ∷ more)), s)
  process_valid payload [] env s = let (r, s') = process payload env s in (reply_of status r, s')

  abbrev pub process_decoded : Decoding T → Env → Db → HttpReply × Db
  process_decoded (Decoding.failed e) env s = (write_decode_error e, s)
  process_decoded (Decoding.complete payload) env s =
      process_valid (normalize payload) (validate (normalize payload)) env s

  -- processWebhook.
  unfoldable pub process_webhook : HttpRequest T → Env → Db → HttpReply × Db
  unfolding decode
  process_webhook r env s = process_decoded (decode r) env s

-- webhookAuth, before a handler.
unfoldable pub webhook_auth :
    String → String → (Env → Db → HttpReply × Db) → Env → Db → HttpReply × Db
webhook_auth secret header next env s =
    if not (is_empty secret) && not (text_eq header secret)
    then (json 401 (ReplyBody.error "Unauthorized"), s)
    else next env s

abbrev pub shop_status : WebhookResult → ℕ
shop_status r = if r.duplicate then 200 else 201

abbrev pub payment_status : WebhookResult → ℕ
payment_status r =
    if r.duplicate
    then 200
    else (if text_eq r.message message_awaiting_shop_order then 202 else 200)

-- shopWebhookHandler behind webhookAuth, for mail.ParseAddress.
unfoldable pub shop_webhook :
    (String → Option String) → Config → HttpRequest ShopWebhook.Webhook → Env → Db → HttpReply × Db
unfolding process_webhook webhook_auth
shop_webhook parse_address cfg r = webhook_auth cfg.webhook_secret r.secret (
    process_webhook (shop_process cfg) ShopWebhook.normalize (ShopWebhook.validate parse_address)
      shop_status r)

-- paymentWebhookHandler behind webhookAuth.
unfoldable pub payment_webhook :
    Config → HttpRequest PaymentWebhook.Webhook → Env → Db → HttpReply × Db
unfolding process_webhook webhook_auth
payment_webhook cfg r env =
    webhook_auth cfg.webhook_secret r.secret
      (process_webhook (payment_process cfg) (PaymentWebhook.normalize env.upper)
        (PaymentWebhook.validate env.parse_rfc3339) payment_status r)
      env

abbrev pub order_reply : Result (Option OrderStatus) → HttpReply
order_reply (Result.err e) = json 500 (ReplyBody.error "Internal server error")
order_reply (Result.ok none) = json 404 (ReplyBody.error "Order not found")
order_reply (Result.ok (some status)) = json 200 (ReplyBody.order status)

-- orderStatusHandler.
unfoldable pub order_status : String → Env → Db → HttpReply × Db
order_status order_id env s = let (r, s') = get_order_status order_id env s in (order_reply r, s')

-- healthHandler, by whether the pool answers a ping.
unfoldable pub health_reply : Bool → HttpReply
health_reply true = json 200 ReplyBody.health
health_reply false = json 500 (ReplyBody.error "Internal server error")
