-- ===== src/Reconcile/Steps.antt =====
-- What the work of each webhook leaves: the shop order alone, and each webhook after the other.
use order_sync.Base.{
  ℕ, suc, String, false, none, some, List, [], ◌∷◌, ◌++◌, ◌≡◌, refl, ◌∙◌, find_row, find_row-insert,
  find_row-update, text_eq_refl,
}
use order_sync.Config.{Config}
use order_sync.Contracts.{Result, Time, EventType}
use order_sync.Payment.Service as Payment
use order_sync.Postgres.Queries.Events.{
  is_event, same_type, mark_event_processed, mark_payment_events_processed,
}
use order_sync.Postgres.Queries.Orders.{has_key, pays_for, new_job, due_after, find_items}
use order_sync.Postgres.Queries.Payments.{has_reference}
use order_sync.Postgres.Queries.Skus.{has_hardware_sku}
use order_sync.Postgres.Schema.{EventRow, Payload, Tables, Db, Env}
use order_sync.Postgres.Tx.{Tx}
use order_sync.Reconcile.{sent, Fits, IsFresh, item_rows, new_order}
use order_sync.Reconcile.Calls.{Leaves, bind-ok}
use order_sync.Reconcile.First.{
  processed, completed, with_order, process_shop-order, end_of_shop-Leaves, reconcile_payment-none,
}
use order_sync.Reconcile.Paid.{paid_row, delay_of, find_items-item_rows}
use order_sync.Reconcile.PaymentSecond.{process_payment-second}
use order_sync.Reconcile.ShopSecond.{stored_payment, reconcile_payment-completed}
use order_sync.Shop.Service as Shop
use order_sync.Shop.Webhook as ShopWebhook

-- The other kind of event is not affected by recording one.
processed-other :
    (a b : EventType) (id other : String) (payload : Payload) (now : Time) (t : Tables)
    → same_type a b ≡ false
    → find_row (is_event b other) t.events ≡ none
    → find_row (is_event b other) (processed a id payload now t) ≡ none
unfolding mark_event_processed
processed-other a b id other payload now t differ new =
    find_row-update (is_event b other) (is_event a id) (λ e. record e { processed_at = some now })
      (λ e. refl) _
    ∙ rw (find_row-insert, new, differ) refl

-- The tables of Shop.Process alone.
abbrev pub after_shop : ShopWebhook.Webhook → Time → Db → Db
after_shop w now s = record s {
  next_order = suc s.next_order;
  tables = record (s.tables) {
    orders = s.tables.orders ++ new_order s.next_order w.order_id w.customer_email ∷ [];
    items = s.tables.items ++ item_rows s.next_order w.items;
    events = processed EventType.shop w.event_id (Payload.shop w) now s.tables;
  };
}

pub shop_alone :
    (cfg : Config) (w : ShopWebhook.Webhook) (env : Env) (now : Time) (s : Db)
    → IsFresh s
    → Fits w.items
    → find_row (is_event EventType.shop w.event_id) s.tables.events ≡ none
    → find_row (has_key w.order_id) s.tables.orders ≡ none
    → find_row (has_reference w.order_id) s.tables.payments ≡ none
    → Leaves (Shop.process_shop cfg w) (sent env now) s (after_shop w now s)
unfolding mark_event_processed
shop_alone cfg w env now s fresh fits event_new order_new payment_new =
    let ends = end_of_shop-Leaves w env now _ in
    (
      ends.0,
      ends.1,
      process_shop-order cfg w env now s fresh fits event_new order_new
          ∙ bind-ok _ _ (sent env now) _
              (reconcile_payment-none w env now cfg s.next_order _ payment_new)
          ∙ ends.2,
    )

-- The tables in which the order is paid and has its job, whatever the events are.
abbrev pub reconciled : Config → ShopWebhook.Webhook → Time → Time → Db → List EventRow → Tables
reconciled cfg w at now s events = record (s.tables) {
  orders = s.tables.orders ++ paid_row at (new_order s.next_order w.order_id w.customer_email) ∷ [];
  items = s.tables.items ++ item_rows s.next_order w.items;
  events = events;
  payments =
      s.tables.payments ++ stored_payment s.next_payment w.order_id (some s.next_order) at ∷ [];
  jobs =
      s.tables.jobs
      ++ new_job s.next_job s.next_order (due_after now (delay_of cfg w.items s.tables)) ∷ [];
}

-- The call succeeds and leaves these tables, but for the events.
abbrev pub Reconciles :
    {A : Type 0} → Tx A → Config → ShopWebhook.Webhook → Env → Time → Time → Db → Db → Type 0
Reconciles {A} m cfg w env at now s u =
    (a : A) × (s' : Db) × (events : List EventRow) × (m (sent env now) u ≡ (Result.ok a, s'))
    × (s'.tables ≡ reconciled cfg w at now s events)

-- The tables of payment.Service.Process alone.
abbrev pub after_payment : String → String → String → Time → Time → Db → Db
after_payment event_id reference timestamp at now s = record s {
  next_payment = suc s.next_payment;
  tables = record (s.tables) {
    events =
        processed EventType.payment event_id
          (Payload.payment (completed event_id reference timestamp)) now s.tables;
    payments = s.tables.payments ++ stored_payment s.next_payment reference none at ∷ [];
  };
}

module _ (cfg : Config) (w : ShopWebhook.Webhook) (event_id timestamp : String) (env : Env)
    (first now at : Time) (s : Db) (n : ℕ) (parsed : env.parse_rfc3339 timestamp ≡ some at)
    (fresh : IsFresh s) (fits : Fits w.items)
    (shop_event : find_row (is_event EventType.shop w.event_id) s.tables.events ≡ none)
    (payment_event : find_row (is_event EventType.payment event_id) s.tables.events ≡ none)
    (order_new : find_row (has_key w.order_id) s.tables.orders ≡ none)
    (payment_new : find_row (has_reference w.order_id) s.tables.payments ≡ none) where
  pub payment_after_shop :
      Reconciles
        (Payment.process_payment cfg (completed event_id w.order_id timestamp))
        cfg
        w
        env
        at
        now
        s
        (record (after_shop w first s) { calls = n })
  unfolding find_items has_hardware_sku same_type
  payment_after_shop =
      let row = new_order s.next_order w.order_id w.customer_email in
      let paid =
        process_payment-second cfg event_id w.order_id timestamp env now at w.items s.tables.orders
          row (record (after_shop w first s) { calls = n }) parsed fresh.positive refl
          (find_row-insert (has_key w.order_id) s.tables.orders row
            ∙ rw (order_new, text_eq_refl w.order_id) refl)
          fresh.orders (find_items-item_rows s.next_order w.items s.tables fresh.items)
          (processed-other EventType.shop EventType.payment w.event_id event_id (Payload.shop w)
            first s.tables refl payment_event)
          payment_new fresh.payments fresh.jobs in
      (paid.0, _, _, paid.2, refl)

  stored_payment-IsFresh :
      IsFresh (record (after_payment event_id w.order_id timestamp at first s) { calls = n })
  stored_payment-IsFresh = record {
    positive = fresh.positive;
    orders = fresh.orders;
    items = fresh.items;
    payments = find_row-insert (pays_for s.next_order) s.tables.payments _ ∙ rw fresh.payments refl;
    jobs = fresh.jobs;
  }

  pub shop_after_payment :
      Reconciles
        (Shop.process_shop cfg w)
        cfg
        w
        env
        at
        now
        s
        (record (after_payment event_id w.order_id timestamp at first s) { calls = n })
  unfolding same_type has_hardware_sku mark_event_processed mark_payment_events_processed
  shop_after_payment =
      let u : Db = record (after_payment event_id w.order_id timestamp at first s) { calls = n } in
      let shop_event' =
        processed-other EventType.payment EventType.shop event_id w.event_id
          (Payload.payment (completed event_id w.order_id timestamp)) first s.tables refl
          shop_event in
      let stored : Db =
        with_order cfg w env now u stored_payment-IsFresh fits shop_event' order_new in
      let linked =
        reconcile_payment-completed cfg w env now at s.next_payment s.tables.payments
          s.tables.orders (new_order s.next_order w.order_id w.customer_email) stored refl
          fresh.orders refl payment_new fresh.payments fresh.jobs in
      let ends = end_of_shop-Leaves w env now _ in
      (
        ends.0,
        _,
        _,
        process_shop-order cfg w env now u stored_payment-IsFresh fits shop_event' order_new
            ∙ bind-ok _ _ (sent env now) _ linked.2
            ∙ ends.2,
        refl,
      )
