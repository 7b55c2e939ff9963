-- ===== src/Tests/Data.antt =====
-- The data of the tests: a catalog, an order of one lock, its payment, and a worker's rounds.
use order_sync.Base.{ℕ, false, none, some, [], ◌∷◌, ◌==◌}
use order_sync.Base.Int.{pos}
use order_sync.Config.{Config}
use order_sync.Contracts.{PaymentStatus, OrderItem}
use order_sync.Payment.Webhook as PaymentWebhook
use order_sync.Shop.Webhook as ShopWebhook
use order_sync.Postgres.Schema.{Category, Db, Env, Tables}

abbrev pub cfg : Config
cfg = record {
  port = pos 3000;
  database_url = "postgres://localhost";
  sap_api_url = "http://mock-sap/orders";
  hardware_sync_delay_seconds = pos 30;
  sap_timeout_ms = pos 3000;
  sap_max_attempts = pos 3;
  sap_max_total_attempts = pos 5;
  sap_recovery_window_seconds = pos 900;
  sap_listener_reconnect_max_ms = pos 1000;
  webhook_secret = "";
}

-- No statement fails; every timestamp is read as one instant; letters are capital already.
abbrev pub env_at : ℕ → Env
env_at now = record { now = now; fault = λ n. false; parse_rfc3339 = λ s. some 77; upper = λ c. c }

-- The statement with the given number fails.
abbrev pub env_failing : ℕ → Env
env_failing n = record {
  now = 1000;
  fault = λ k. k == n;
  parse_rfc3339 = λ s. some 77;
  upper = λ c. c;
}

abbrev pub empty_tables : Tables
empty_tables = record {
  orders = [];
  items = [];
  skus = record { sku = "NUKI-SL3"; category = Category.hardware } ∷ [];
  events = [];
  payments = [];
  jobs = [];
}

abbrev pub empty_db : Db
empty_db = record {
  tables = empty_tables;
  next_order = 1;
  next_payment = 1;
  next_job = 1;
  calls = 0;
}

abbrev pub lock_item : OrderItem
lock_item = record {
  sku = "NUKI-SL3";
  quantity = pos 1;
  price = record { mantissa = pos 14999; scale = 2 };
  is_hardware = none;
}

abbrev pub shop_webhook : ShopWebhook.Webhook
shop_webhook = record {
  event_id = "shop-1";
  order_id = " A-1 ";
  customer_email = "a@b.example";
  items = lock_item ∷ [];
}

abbrev pub paid_webhook : PaymentWebhook.Webhook
paid_webhook = record {
  event_id = "pay-1";
  reference_order_id = "A-1";
  payment_status = PaymentStatus.completed;
  timestamp = "2026-01-02T03:04:05Z";
}

abbrev pub cancel_webhook : PaymentWebhook.Webhook
cancel_webhook = record {
  event_id = "pay-2";
  reference_order_id = "A-1";
  payment_status = PaymentStatus.cancelled;
  timestamp = "2026-01-02T03:05:05Z";
}
