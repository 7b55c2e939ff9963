-- ===== src/Reconcile/Order.antt =====
-- Shop.Process and payment.Service.Process, committed one after the other in both orders.
use order_sync.Base.{String, none, some, [], ◌∷◌, ◌≡◌, ap, suc, ◌∙◌, find_row}
use order_sync.Config.{Config}
use order_sync.Contracts.{Result, Time, EventType, WebhookResult}
use order_sync.Payment.Service as Payment
use order_sync.Payment.Webhook as PaymentWebhook
use order_sync.Postgres.Queries.Events.{is_event}
use order_sync.Postgres.Queries.Orders.{has_key}
use order_sync.Postgres.Queries.Payments.{has_reference}
use order_sync.Postgres.Schema.{Tables, Db, Env}
use order_sync.Postgres.Tx.{Tx}
use order_sync.Reconcile.{sent, Fits, IsFresh}
use order_sync.Reconcile.First.{completed, process_payment-first}
use order_sync.Reconcile.Steps.{reconciled, shop_alone, payment_after_shop, shop_after_payment}
use order_sync.Shop.Service as Shop
use order_sync.Shop.Webhook as ShopWebhook
use order_sync.Transaction.{run, finish, payment_process, shop_process}
use order_sync.Transaction.Guarantees.{Request, handle, serve}

run-sent :
    {A : Type 0} (work : Tx A) (env : Env) (now : Time) (s : Db) {a : A} {s' : Db}
    → work (sent env now) (record s { calls = suc s.calls }) ≡ (Result.ok a, s')
    → (run work (sent env now) s).1 ≡ record s' { calls = suc s'.calls }
unfolding run
run-sent work env now s h = ap (λ x. (finish s x.0 (sent env now) x.1).1) h

-- A fresh database stays fresh when a statement is counted.
begun-IsFresh : (s : Db) → IsFresh s → IsFresh (record s { calls = suc s.calls })
begun-IsFresh s fresh = record {
  positive = fresh.positive;
  orders = fresh.orders;
  items = fresh.items;
  payments = fresh.payments;
  jobs = fresh.jobs;
}

handle-shop :
    (cfg : Config) (payload w : ShopWebhook.Webhook) (env : Env) (now : Time) (s : Db)
    {a : WebhookResult} {s' : Db}
    → ShopWebhook.normalize payload ≡ w
    → Shop.process_shop cfg w (sent env now) (record s { calls = suc s.calls }) ≡ (Result.ok a, s')
    → handle cfg (Request.shop payload) (sent env now) s ≡ record s' { calls = suc s'.calls }
unfolding shop_process handle
handle-shop cfg payload w env now s normal h =
    ap (λ v. (run (Shop.process_shop cfg v) (sent env now) s).1) normal
    ∙ run-sent (Shop.process_shop cfg w) env now s h

handle-payment :
    (cfg : Config) (payload p : PaymentWebhook.Webhook) (env : Env) (now : Time) (s : Db)
    {a : WebhookResult} {s' : Db}
    → PaymentWebhook.normalize env.upper payload ≡ p
    → Payment.process_payment cfg p (sent env now) (record s { calls = suc s.calls })
      ≡ (Result.ok a, s')
    → handle cfg (Request.payment payload) (sent env now) s ≡ record s' { calls = suc s'.calls }
unfolding payment_process handle
handle-payment cfg payload p env now s normal h =
    ap (λ v. (run (Payment.process_payment cfg v) (sent env now) s).1) normal
    ∙ run-sent (Payment.process_payment cfg p) env now s h

-- All tables but the events, whose times of processing differ with the order.
abbrev pub but_events : Tables → Tables
but_events t = record t { events = [] }

module _ (cfg : Config) (payload : ShopWebhook.Webhook) (paid : PaymentWebhook.Webhook)
    (w : ShopWebhook.Webhook) (event_id timestamp : String) (env : Env) (now₁ now₂ at : Time)
    (s : Db) (shop_normal : ShopWebhook.normalize payload ≡ w)
    (payment_normal : PaymentWebhook.normalize env.upper paid
      ≡ completed event_id w.order_id timestamp)
    (parsed : env.parse_rfc3339 timestamp ≡ some at) (fresh : IsFresh s) (fits : Fits w.items)
    (shop_event : find_row (is_event EventType.shop w.event_id) s.tables.events ≡ none)
    (payment_event : find_row (is_event EventType.payment event_id) s.tables.events ≡ none)
    (order_new : find_row (has_key w.order_id) s.tables.orders ≡ none)
    (payment_new : find_row (has_reference w.order_id) s.tables.payments ≡ none) where
  shop_first :
      but_events
        (serve cfg
          ((sent env now₁, Request.shop payload) ∷ (sent env now₂, Request.payment paid) ∷ [])
          s).tables
      ≡ reconciled cfg w at now₂ s []
  unfolding serve
  shop_first =
      let one =
        shop_alone cfg w env now₁ _ (begun-IsFresh s fresh) fits shop_event order_new payment_new in
      let two =
        payment_after_shop cfg w event_id timestamp env now₁ now₂ at s (suc (suc one.1)) parsed
          fresh fits shop_event payment_event order_new payment_new in
      ap (λ u. but_events (handle cfg (Request.payment paid) (sent env now₂) u).tables)
        (handle-shop cfg payload w env now₁ s shop_normal one.2)
      ∙ ap (λ u. but_events u.tables) (handle-payment cfg paid _ env now₂ _ payment_normal two.3)
      ∙ ap but_events two.4

  payment_first :
      but_events
        (serve cfg
          ((sent env now₁, Request.payment paid) ∷ (sent env now₂, Request.shop payload) ∷ [])
          s).tables
      ≡ reconciled cfg w at now₂ s []
  unfolding serve
  payment_first =
      let one =
        process_payment-first cfg event_id w.order_id timestamp env now₁ at _ parsed payment_event
          payment_new order_new in
      let two =
        shop_after_payment cfg w event_id timestamp env now₁ now₂ at s (suc (suc one.1)) parsed
          fresh fits shop_event payment_event order_new payment_new in
      ap (λ u. but_events (handle cfg (Request.shop payload) (sent env now₂) u).tables)
        (handle-payment cfg paid _ env now₁ s payment_normal one.2)
      ∙ ap (λ u. but_events u.tables) (handle-shop cfg payload w env now₂ _ shop_normal two.3)
      ∙ ap but_events two.4

-- A shop order and its completed payment leave the same orders, items, SKUs, payments and jobs in either
-- order, namely: the order is stored PAID at the payment's time with its items, its payment is COMPLETED and
-- linked to it, and it has one new job, PENDING and due after the items' delay from the second webhook on.
-- The webhooks' events, the order and the payment are new, the payload's timestamp parses, the items fit
-- their columns, the next order id is positive and no row refers to it, and every statement is sent.
pub either_order :
    (cfg : Config) (payload : ShopWebhook.Webhook) (paid : PaymentWebhook.Webhook)
    (w : ShopWebhook.Webhook) (event_id timestamp : String) (env : Env) (now₁ now₂ at : Time)
    (s : Db)
    → ShopWebhook.normalize payload ≡ w
    → PaymentWebhook.normalize env.upper paid ≡ completed event_id w.order_id timestamp
    → env.parse_rfc3339 timestamp ≡ some at
    → IsFresh s
    → Fits w.items
    → find_row (is_event EventType.shop w.event_id) s.tables.events ≡ none
    → find_row (is_event EventType.payment event_id) s.tables.events ≡ none
    → find_row (has_key w.order_id) s.tables.orders ≡ none
    → find_row (has_reference w.order_id) s.tables.payments ≡ none
    → let shop = Request.shop payload in
      let payment = Request.payment paid in
      (but_events (serve cfg ((sent env now₁, shop) ∷ (sent env now₂, payment) ∷ []) s).tables
        ≡ reconciled cfg w at now₂ s [])
      × (but_events (serve cfg ((sent env now₁, payment) ∷ (sent env now₂, shop) ∷ []) s).tables
          ≡ reconciled cfg w at now₂ s [])
either_order cfg payload paid w event_id timestamp env now₁ now₂ at s shop_normal payment_normal
      parsed fresh fits shop_event payment_event order_new payment_new =
    (
      shop_first cfg payload paid w event_id timestamp env now₁ now₂ at s shop_normal payment_normal
          parsed fresh fits shop_event payment_event order_new payment_new,
      payment_first cfg payload paid w event_id timestamp env now₁ now₂ at s shop_normal
          payment_normal parsed fresh fits shop_event payment_event order_new payment_new,
    )
