-- ===== src/Payment/Webhook.antt =====
-- internal/payment/webhook.go: the payload of a payment webhook, its normal form and its checks.
use order_sync.Base.{
  Char, String, Option, none, some, List, [], ◌∷◌, ◌++◌, ◌≡◌, refl, true, append, text_eq, is_empty,
  is_blank, trim_space, trim_space-padded, to_upper, if◌then◌else◌,
}
use order_sync.Contracts.{Time, PaymentStatus, PathPart, ValidationIssue}

pub record Webhook : Type 0 where
  pub event_id : String
  pub reference_order_id : String
  pub payment_status : PaymentStatus
  pub timestamp : String

-- contracts.PaymentStatus(text), and string(status).
unfoldable pub status_of_text : String → PaymentStatus
status_of_text s =
    if text_eq s "PENDING"
    then PaymentStatus.pending
    else (if text_eq s "COMPLETED"
        then PaymentStatus.completed
        else (if text_eq s "FAILED"
            then PaymentStatus.failed
            else (if text_eq s "CANCELLED"
                then PaymentStatus.cancelled
                else PaymentStatus.other s)))

unfoldable pub text_of_status : PaymentStatus → String
text_of_status PaymentStatus.pending = "PENDING"
text_of_status PaymentStatus.completed = "COMPLETED"
text_of_status PaymentStatus.failed = "FAILED"
text_of_status PaymentStatus.cancelled = "CANCELLED"
text_of_status (PaymentStatus.other s) = s

unfoldable pub normalize_status : (Char → Char) → PaymentStatus → PaymentStatus
normalize_status upper status = status_of_text (to_upper upper (trim_space (text_of_status status)))

-- NormalizePaymentWebhook.
unfoldable pub normalize : (Char → Char) → Webhook → Webhook
normalize upper p = record {
  event_id = trim_space p.event_id;
  reference_order_id = trim_space p.reference_order_id;
  payment_status = normalize_status upper p.payment_status;
  timestamp = trim_space p.timestamp;
}

abbrev issue : String → String → ValidationIssue
issue field message = record {
  code = "invalid_value";
  path = PathPart.key field ∷ [];
  message = message;
}

abbrev required : String → String → List ValidationIssue
required field value = if is_empty value then issue field "Required" ∷ [] else []

abbrev check_status : PaymentStatus → List ValidationIssue
check_status (PaymentStatus.other s) =
    if is_empty s
    then issue "payment_status" "Required" ∷ []
    else issue "payment_status" "Unsupported status" ∷ []
check_status _ = []

abbrev check_timestamp : Option Time → List ValidationIssue
check_timestamp none = issue "timestamp" "Invalid ISO datetime" ∷ []
check_timestamp (some _) = []

-- ValidatePaymentWebhook, for time.Parse(time.RFC3339, _).
unfoldable pub validate : (String → Option Time) → Webhook → List ValidationIssue
validate parse p =
    required "event_id" p.event_id
    ++ (required "reference_order_id" p.reference_order_id
        ++ (check_status p.payment_status ++ check_timestamp (parse p.timestamp)))

-- The second text is the first one with white space around it.
abbrev pub Pads : String → String → Type 0
Pads s padded =
    (before : String) × (after : String) × (is_blank before ≡ true)
    × (is_blank after ≡ true)
    × (padded ≡ append before (append s after))

-- Two payloads whose texts differ by white space around those of the second.
pub record PadsWebhook (p padded : Webhook) : Type 0 where
  pub event_ids : Pads p.event_id padded.event_id
  pub order_ids : Pads p.reference_order_id padded.reference_order_id
  pub statuses : Pads (text_of_status p.payment_status) (text_of_status padded.payment_status)
  pub timestamps : Pads p.timestamp padded.timestamp

trim_space-Pads : (s padded : String) → Pads s padded → trim_space padded ≡ trim_space s
trim_space-Pads s padded (before, after, blank, blank_after, same) =
    rw same (trim_space-padded before s after blank blank_after)

-- White space around the texts of a payload makes no difference to its normal form.
pub normalize-PadsWebhook :
    (upper : Char → Char) (p padded : Webhook)
    → PadsWebhook p padded
    → normalize upper padded ≡ normalize upper p
unfolding normalize normalize_status
normalize-PadsWebhook upper p padded h =
    rw
      (
        trim_space-Pads p.event_id padded.event_id h.event_ids,
        trim_space-Pads p.reference_order_id padded.reference_order_id h.order_ids,
        trim_space-Pads p.timestamp padded.timestamp h.timestamps,
        trim_space-Pads (text_of_status p.payment_status) (text_of_status padded.payment_status)
            h.statuses,
      )
      refl
