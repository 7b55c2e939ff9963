-- ===== src/Contracts.antt =====
-- internal/contracts/contracts.go: the statuses, the items and the results that the services share.
-- A Go string type with named constants is a data type with a constructor for each constant and
-- `other` for any further text; `other ""` is the zero value. A `*T` is an `Option T`. Instants are
-- counted in nanoseconds from Go's zero time, which is 0.
mod Money
mod Errors
pub use Money.{Price, in_cents, IsStorable, stored_price-IsStorable, price_eq_refl, price_eq→eq}
unfoldable pub use Money.{price_eq, price_negative, stored_price}
pub use Errors.{Error, Result, Sentinel}
unfoldable pub use Errors.{is_error}
use order_sync.Base.{ℕ, String, Bool, true, false, Option, List, text_eq}
use order_sync.Base.Int.{ℤ}

abbrev pub Time : Type 0
Time = ℕ

pub data EventType : Type 0 where
  shop payment : EventType

pub data PaymentStatus : Type 0 where
  pending completed failed cancelled : PaymentStatus
  other : String → PaymentStatus

pub data SyncStatus : Type 0 where
  pending processing synced waiting dead cancelled : SyncStatus
  other : String → SyncStatus

pub data OrderState : Type 0 where
  pending paid cancelled : OrderState
  other : String → OrderState

pub record OrderItem : Type 0 where
  pub sku : String
  pub quantity : ℤ
  pub price : Price
  pub is_hardware : Option Bool

pub record StoredOrder : Type 0 where
  pub id : ℕ
  pub customer_email : String
  pub items : List OrderItem

pub record WebhookResult : Type 0 where
  pub duplicate : Bool
  pub message : String
  pub event_id : String
  pub order_id : String
  pub payment_status : PaymentStatus
  pub order_status : OrderState
  pub sync_status : SyncStatus

pub record OrderStatus : Type 0 where
  pub order_id : String
  pub customer_email : String
  pub status : OrderState
  pub payment_status : PaymentStatus
  pub paid_at : Option Time
  pub sync_status : SyncStatus
  pub due_at : Option Time
  pub attempts : Option ℕ
  pub last_error : Option String
  pub sap_internal_id : Option String

-- `CreatedAt` and `UpdatedAt` are left out: nothing reads them.
pub record PaymentState : Type 0 where
  pub id : ℕ
  pub reference_order_id : String
  pub order_id : Option ℕ
  pub status : PaymentStatus
  pub paid_at : Option Time

-- Go's `==` on a payment status.
unfoldable pub same_status : PaymentStatus → PaymentStatus → Bool
same_status PaymentStatus.pending PaymentStatus.pending = true
same_status PaymentStatus.completed PaymentStatus.completed = true
same_status PaymentStatus.failed PaymentStatus.failed = true
same_status PaymentStatus.cancelled PaymentStatus.cancelled = true
same_status (PaymentStatus.other a) (PaymentStatus.other b) = text_eq a b
same_status _ _ = false

-- An element of `Path []any`: a field's name, or an index.
pub data PathPart : Type 0 where
  key : String → PathPart
  index : ℕ → PathPart

pub record ValidationIssue : Type 0 where
  pub code : String
  pub path : List PathPart
  pub message : String
