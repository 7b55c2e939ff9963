-- ===== src/Contracts/Errors.antt =====
-- The errors of internal/contracts/contracts.go and those that the services build with fmt.Errorf,
-- and a call that returns a value or an error.
use order_sync.Base.{String, Bool, true, false}

pub data Error : Type 0 where
  -- ErrPaymentFinalized, ErrOrderPayloadConflict, ErrPaymentPayloadConflict, ErrDigitalCancellation
  -- and ErrOrderCannotCancel
  payment_finalized order_payload_conflict payment_payload_conflict : Error
  digital_cancellation order_cannot_cancel : Error
  -- any error of the database or its driver
  database : Error
  -- an error of time.Parse, a text of fmt.Errorf with no `%w`
  bad_timestamp : Error
  message : String → Error
  -- fmt.Errorf(format, ..., err) with `%w`: the format stands for the text
  wrap : String → Error → Error

pub data Result {ℓ} (A : Type ℓ) : Type ℓ where
  ok : A → Result A
  err : Error → Result A

-- errors.Is against each of the five sentinels: it looks through every `%w`.
pub data Sentinel : Type 0 where
  finalized order_conflict payment_conflict digital cannot_cancel : Sentinel

unfoldable pub is_error : Error → Sentinel → Bool
is_error Error.payment_finalized Sentinel.finalized = true
is_error Error.order_payload_conflict Sentinel.order_conflict = true
is_error Error.payment_payload_conflict Sentinel.payment_conflict = true
is_error Error.digital_cancellation Sentinel.digital = true
is_error Error.order_cannot_cancel Sentinel.cannot_cancel = true
is_error (Error.wrap _ e) s = is_error e s
is_error _ _ = false
