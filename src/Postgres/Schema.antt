-- ===== src/Postgres/Schema.antt =====
-- The tables of migrations/001_initial.sql, as lists of rows in the order of insertion. The columns
-- created_at and updated_at are left out: they are written and never read. A timestamp is kept in
-- nanoseconds; the database keeps microseconds.
use order_sync.Base.{ℕ, Char, String, Bool, Option, List}
use order_sync.Contracts.{Time, EventType, PaymentStatus, SyncStatus, OrderState, OrderItem}
use order_sync.Payment.Webhook as PaymentWebhook
use order_sync.Shop.Webhook as ShopWebhook

pub record OrderRow : Type 0 where
  pub id : ℕ
  pub order_id : String
  pub customer_email : String
  pub payment_status : OrderState
  pub sap_id : Option String
  pub paid_at : Option Time

pub record ItemRow : Type 0 where
  pub order_id : ℕ
  pub item : OrderItem

pub data Category : Type 0 where
  hardware digital : Category

pub record SkuRow : Type 0 where
  pub sku : String
  pub category : Category

-- The column `payload JSONB`: the webhook that json.Marshal wrote.
pub data Payload : Type 0 where
  shop : ShopWebhook.Webhook → Payload
  payment : PaymentWebhook.Webhook → Payload

pub record EventRow : Type 0 where
  pub event_id : String
  pub event_type : EventType
  pub payload : Payload
  pub processed_at : Option Time

pub record PaymentRow : Type 0 where
  pub id : ℕ
  pub reference_order_id : String
  pub order_id : Option ℕ
  pub status : PaymentStatus
  pub paid_at : Option Time

pub record JobRow : Type 0 where
  pub id : ℕ
  pub order_id : ℕ
  pub status : SyncStatus
  pub due_at : Time
  pub attempts : ℕ
  pub locked_at : Option Time
  pub waiting_since : Option Time
  pub last_error : Option String
  pub sap_internal_id : Option String
  pub synced_at : Option Time

pub record Tables : Type 0 where
  pub orders : List OrderRow
  pub items : List ItemRow
  pub skus : List SkuRow
  pub events : List EventRow
  pub payments : List PaymentRow
  pub jobs : List JobRow

-- The database: its tables, the sequences behind the BIGSERIAL columns (which a rollback does not
-- set back), and how many statements have been sent to it.
pub record Db : Type 0 where
  pub tables : Tables
  pub next_order : ℕ
  pub next_payment : ℕ
  pub next_job : ℕ
  pub calls : ℕ

-- What a call takes from outside: NOW(), the statements that fail (by their number), and of Go's
-- library time.Parse of an RFC 3339 text and unicode.ToUpper.
pub record Env : Type 0 where
  pub now : Time
  pub fault : ℕ → Bool
  pub parse_rfc3339 : String → Option Time
  pub upper : Char → Char
