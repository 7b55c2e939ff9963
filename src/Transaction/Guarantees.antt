-- ===== src/Transaction/Guarantees.antt =====
-- What holds over any sequence of webhooks. The transactions of two webhooks that touch the same rows
-- are serialised by the row locks of the database, so a history is a list.
use order_sync.Base.{ℕ, String, true, false, some, List, [], ◌∷◌, ◌≡◌, ap, ◌⊎◌, arith, find_row}
use order_sync.Config.{Config}
use order_sync.Contracts.{Error, Result, EventType, SyncStatus}
use order_sync.Postgres.Schema.{Db, Env, OrderRow, PaymentRow, JobRow, EventRow}
use order_sync.Postgres.Tx.{Tx}
use order_sync.Postgres.Queries.Orders.{has_key, of_order, is_cancellable, find_order}
use order_sync.Postgres.Queries.Payments.{is_open_status, find_payment}
use order_sync.Postgres.Queries.Events.{is_event, find_event_payload}
use order_sync.Postgres.Evolution.{JobKey, Evolves, Evolves-refl, Evolves-trans}
use order_sync.Payment.Webhook as PaymentWebhook
use order_sync.Payment.Service.{is_terminal, process_payment}
use order_sync.Shop.Service.{process_shop}
use order_sync.Shop.Webhook as ShopWebhook
use order_sync.Transaction.{run, payment_process, shop_process}
use order_sync.Transaction.Evolution.{payment_process-Steps, shop_process-Steps}

pub data Request : Type 0 where
  shop : ShopWebhook.Webhook → Request
  payment : PaymentWebhook.Webhook → Request

unfoldable pub handle : Config → Request → Env → Db → Db
handle cfg (Request.shop payload) env s = (shop_process cfg payload env s).1
handle cfg (Request.payment payload) env s = (payment_process cfg payload env s).1

-- The webhooks of a history, each with its instant and its failing statements.
unfoldable pub serve : Config → List (Env × Request) → Db → Db
unfolding handle
serve cfg [] s = s
serve cfg ((env, request) ∷ history) s = serve cfg history (handle cfg request env s)

pub handle-Evolves :
    (cfg : Config) (request : Request) (env : Env) (s : Db)
    → Evolves s.tables (handle cfg request env s).tables
unfolding handle
handle-Evolves cfg (Request.shop payload) env s = (shop_process-Steps cfg payload).apply env s
handle-Evolves cfg (Request.payment payload) env s = (payment_process-Steps cfg payload).apply env s

pub serve-Evolves :
    (cfg : Config) (history : List (Env × Request)) (s : Db)
    → Evolves s.tables (serve cfg history s).tables
unfolding serve
serve-Evolves cfg [] s = Evolves-refl s.tables
serve-Evolves cfg ((env, request) ∷ history) s =
    Evolves-trans s.tables (handle cfg request env s).tables _ (handle-Evolves cfg request env s)
      (serve-Evolves cfg history (handle cfg request env s))

terminal-closed : (p : PaymentRow) → is_terminal p.status ≡ true → is_open_status p.status ≡ false
unfolding is_terminal is_open_status
terminal-closed p h = ground arith

-- A payment that is COMPLETED or CANCELLED is still found by its reference after any sequence of
-- webhooks, with any statements failing, and has the same status and the same paid_at.
pub terminal_payment_is_final :
    (cfg : Config) (history : List (Env × Request)) (s : Db) (reference : String) (p : PaymentRow)
    → find_payment reference s.tables ≡ some p
    → is_terminal p.status ≡ true
    → (p' : PaymentRow) × (find_payment reference (serve cfg history s).tables ≡ some p')
      × (p'.status ≡ p.status)
      × (p'.paid_at ≡ p.paid_at)
unfolding find_payment
terminal_payment_is_final cfg history s reference p found terminal =
    let (p', found', same) = (serve-Evolves cfg history s).payments reference p found in
    let (status, paid_at) = same (terminal-closed p terminal) in (p', found', status, paid_at)

-- The job of an order is never lost: after any sequence of webhooks, with any statements failing, it
-- is the row that it was, or it was PENDING, WAITING or DEAD and is CANCELLED. So a job that is
-- PROCESSING, SYNCED or CANCELLED is left alone.
pub jobs_only_cancelled :
    (cfg : Config) (history : List (Env × Request)) (s : Db) (id : ℕ) (j : JobRow)
    → find_row (of_order id) s.tables.jobs ≡ some j
    → (j' : JobRow) × (find_row (of_order id) (serve cfg history s).tables.jobs ≡ some j')
      × ((j' ≡ j) ⊎ ((is_cancellable j.status ≡ true) × (j'.status ≡ SyncStatus.cancelled)))
jobs_only_cancelled cfg history s id j found =
    (serve-Evolves cfg history s).jobs (JobKey.by_order id) j found

-- An order that is stored keeps its id and its customer email under its order_id, and a recorded event
-- keeps its payload, over any sequence of webhooks, with any statements failing.
pub shop_data_immutable :
    (cfg : Config) (history : List (Env × Request)) (s : Db)
    → ((order_id : String) (r : OrderRow)
        → find_order order_id s.tables ≡ some r
        → (r' : OrderRow) × (find_order order_id (serve cfg history s).tables ≡ some r')
          × (r'.id ≡ r.id)
          × (r'.customer_email ≡ r.customer_email))
      × ((event_type : EventType) (id : String) (e : EventRow)
          → find_row (is_event event_type id) s.tables.events ≡ some e
          → find_event_payload event_type id (serve cfg history s).tables ≡ some e.payload)
unfolding find_order find_event_payload
shop_data_immutable cfg history s = (orders, events)
  where
    orders :
        (order_id : String) (r : OrderRow)
        → find_row (has_key order_id) s.tables.orders ≡ some r
        → (r' : OrderRow) × (find_row (has_key order_id) (serve cfg history s).tables.orders
            ≡ some r')
          × (r'.id ≡ r.id)
          × (r'.customer_email ≡ r.customer_email)
    orders order_id r found =
        let (r', found', (id, key, email)) =
          (serve-Evolves cfg history s).orders order_id r found in
        (r', found', id, email)

    events :
        (event_type : EventType) (id : String) (e : EventRow)
        → find_row (is_event event_type id) s.tables.events ≡ some e
        → find_event_payload event_type id (serve cfg history s).tables ≡ some e.payload
    events event_type id e found =
        let (e', found', same) = (serve-Evolves cfg history s).events (event_type, id) e found in
        rw (found', find_event_payload) (ap some same)

run_rolls_back :
    {A : Type 0} (work : Tx A) (env : Env) (s : Db) (e : Error)
    → (run work env s).0 ≡ Result.err e
    → (run work env s).1.tables ≡ s.tables
unfolding run
run_rolls_back work env s e h = ground arith

-- A webhook whose processing returns an error, at whatever statement, with a failed COMMIT rolled back,
-- leaves every table as it was.
pub error_changes_nothing :
    (cfg : Config) (env : Env) (s : Db) (e : Error)
    → ((payload : PaymentWebhook.Webhook)
        → (payment_process cfg payload env s).0 ≡ Result.err e
        → (payment_process cfg payload env s).1.tables ≡ s.tables)
      × ((payload : ShopWebhook.Webhook)
          → (shop_process cfg payload env s).0 ≡ Result.err e
          → (shop_process cfg payload env s).1.tables ≡ s.tables)
unfolding payment_process shop_process
error_changes_nothing cfg env s e = (
  λ payload.
      run_rolls_back (process_payment cfg (PaymentWebhook.normalize env.upper payload)) env s e,
  λ payload. run_rolls_back (process_shop cfg (ShopWebhook.normalize payload)) env s e,
)
