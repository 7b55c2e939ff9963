-- ===== src/Reconcile/First.antt =====
-- The webhook that arrives first: the shop order without a payment, or the payment without an order.
use order_sync.Base.{
  ℕ, suc, ◌+◌, ◌<◌, String, true, false, none, some, List, [], ◌∷◌, ◌++◌, ◌≡◌, refl, ap, ◌∙◌, arith,
  length, find_row, ◌==◌,
}
use order_sync.Config.{Config}
use order_sync.Contracts.{Result, Time, EventType, PaymentStatus, WebhookResult}
use order_sync.Payment.Webhook as PaymentWebhook
use order_sync.Payment.Service as Payment
use order_sync.Shop.Webhook as ShopWebhook
use order_sync.Shop.Service as Shop
use order_sync.Postgres.Queries.Events.{is_event, mark_event_processed}
use order_sync.Postgres.Queries.Orders.{has_key}
use order_sync.Postgres.Queries.Payments.{has_reference, find_payment, proposed, order_fits}
use order_sync.Postgres.Repositories.Events as EventRepository
use order_sync.Postgres.Repositories.Orders as OrderRepository
use order_sync.Postgres.Repositories.Payments as PaymentRepository
use order_sync.Postgres.Schema.{OrderRow, EventRow, Payload, Tables, Db, Env}
use order_sync.Postgres.Tx.{Tx, pure, ◌>>=◌, ◌>>◌, wrapping, statement, reads, writes}
use order_sync.Reconcile.{sent, Fits, IsFresh, item_rows, new_order}
use order_sync.Reconcile.Calls.{
  Leaves, stored-has_row, bind-ok, record_event-new, create-new, add_items-new, wrapping-ok,
  find_payment-sent, find_order_id-sent, upsert-new,
}

pub positive-ne_zero : (n : ℕ) → 0 < n → (n == 0) ≡ false
positive-ne_zero n h = ground arith

-- The recorded event, once it is processed.
abbrev pub processed : EventType → String → Payload → Time → Tables → List EventRow
processed event_type id payload now t =
    (mark_event_processed event_type id now (record t {
      events =
          t.events
          ++ (record {
            event_id = id;
            event_type = event_type;
            payload = payload;
            processed_at = none;
          })
            ∷ [];
    })).events

module _ (cfg : Config) (w : ShopWebhook.Webhook) (env : Env) (now : Time) (s : Db)
    (fresh : IsFresh s) (fits : Fits w.items)
    (event_new : find_row (is_event EventType.shop w.event_id) s.tables.events ≡ none)
    (order_new : find_row (has_key w.order_id) s.tables.orders ≡ none) where
  abbrev pub row : OrderRow
  row = new_order s.next_order w.order_id w.customer_email

  -- After record_event, create and add_items.
  abbrev pub with_order : Db
  with_order = record s {
    calls = suc (suc s.calls) + length w.items;
    next_order = suc s.next_order;
    tables = record (s.tables) {
      orders = s.tables.orders ++ row ∷ [];
      items = s.tables.items ++ item_rows s.next_order w.items;
      events =
          s.tables.events
          ++ (record {
            event_id = w.event_id;
            event_type = EventType.shop;
            payload = Payload.shop w;
            processed_at = none;
          })
            ∷ [];
    };
  }

  -- The rest of processShop from there.
  abbrev pub rest_of_shop : Tx WebhookResult
  rest_of_shop = do
    Shop.reconcile_payment cfg w s.next_order
    Shop.mark_event w
    Shop.shop_result w.event_id w.order_id "Order stored"

  created_order-positive :
      (u : Db)
      → Shop.created_order cfg w s.next_order (sent env now) u
        ≡ Shop.store_order cfg w s.next_order (sent env now) u
  created_order-positive u = rw (positive-ne_zero s.next_order fresh.positive) refl

  pub process_shop-order :
      Shop.process_shop cfg w (sent env now) s ≡ rest_of_shop (sent env now) with_order
  unfolding Shop.process_shop Shop.new_event Shop.store_order
  process_shop-order =
      bind-ok _ _ (sent env now) s (
        record_event-new env now "record shop event" w.event_id EventType.shop (Payload.shop w) s
          event_new)
      ∙ bind-ok _ _ (sent env now) _
          (create-new env now "create order %q" w.order_id w.customer_email _ order_new)
      ∙ created_order-positive _
      ∙ bind-ok _ _ (sent env now) _ (
          wrapping-ok "store items for order %d" _ (sent env now) _ (
            add_items-new env now s.next_order w.items _ fits (stored-has_row s.tables.orders row)))

module _ (w : ShopWebhook.Webhook) (env : Env) (now : Time) where
  -- The end of processShop.
  abbrev pub end_of_shop : Tx WebhookResult
  end_of_shop = do Shop.mark_event w; Shop.shop_result w.event_id w.order_id "Order stored"

  pub end_of_shop-Leaves :
      (u : Db)
      → Leaves end_of_shop
          (sent env now)
          u
          (record u { tables = mark_event_processed EventType.shop w.event_id now u.tables })
  unfolding Shop.shop_result OrderRepository.find_status_of EventRepository.mark_processed wrapping
      statement reads writes pure ◌>>=◌
  end_of_shop-Leaves u = (_, suc (suc u.calls), refl)

  pub reconcile_payment-none :
      (cfg : Config) (id : ℕ) (u : Db)
      → find_row (has_reference w.order_id) u.tables.payments ≡ none
      → Shop.reconcile_payment cfg w id (sent env now) u
        ≡ (Result.ok tt, record u { calls = suc u.calls })
  unfolding Shop.reconcile_payment PaymentRepository.find find_payment wrapping statement reads pure
      ◌>>=◌
  reconcile_payment-none cfg id u h = rw h refl

-- A completed payment.
abbrev pub completed : String → String → String → PaymentWebhook.Webhook
completed event_id reference timestamp = record {
  event_id = event_id;
  reference_order_id = reference;
  payment_status = PaymentStatus.completed;
  timestamp = timestamp;
}

module _ (cfg : Config) (event_id reference timestamp : String) (env : Env) (now at : Time) (s : Db)
    (parsed : env.parse_rfc3339 timestamp ≡ some at)
    (event_new : find_row (is_event EventType.payment event_id) s.tables.events ≡ none)
    (payment_new : find_row (has_reference reference) s.tables.payments ≡ none) where
  abbrev pub p : PaymentWebhook.Webhook
  p = completed event_id reference timestamp

  abbrev pub recorded : Db
  recorded = record s {
    calls = suc (suc s.calls);
    tables = record (s.tables) {
      events =
          s.tables.events
          ++ (record {
            event_id = event_id;
            event_type = EventType.payment;
            payload = Payload.payment p;
            processed_at = none;
          })
            ∷ [];
    };
  }

  -- Up to the look for the order.
  pub process_payment-recorded :
      Payment.process_payment cfg p (sent env now) s
      ≡ Payment.apply_at cfg p (some at) (sent env now) recorded
  unfolding Payment.process_payment Payment.apply_event
  process_payment-recorded =
      bind-ok _ _ (sent env now) s (
        record_event-new env now "record payment event" event_id EventType.payment
          (Payload.payment p) s event_new)
      ∙ bind-ok _ _ (sent env now) _
          (find_payment-sent env now "find payment %q" reference _ none payment_new)
      ∙ at_timestamp recorded
    where
      at_timestamp :
          (u : Db)
          → Payment.apply_event cfg p (sent env now) u
            ≡ Payment.apply_at cfg p (some at) (sent env now) u
      at_timestamp u = ap (λ o. Payment.apply_at cfg p o (sent env now) u) parsed

  end_of_payment-Leaves :
      (u : Db)
      → Leaves
          (Payment.after_upsert cfg p
            (PaymentRepository.scan_state
              (proposed s.next_payment reference none PaymentStatus.completed (some at)))
            none
            true)
          (sent env now)
          u
          (record u { tables = mark_event_processed EventType.payment event_id now u.tables })
  unfolding EventRepository.mark_processed wrapping statement writes pure ◌>>=◌
  end_of_payment-Leaves u = (_, suc u.calls, refl)

  -- The payment without an order.
  pub process_payment-first :
      find_row (has_key reference) s.tables.orders ≡ none
      → Leaves (Payment.process_payment cfg p) (sent env now) s (record s {
        next_payment = suc s.next_payment;
        tables = record (s.tables) {
          events = processed EventType.payment event_id (Payload.payment p) now s.tables;
          payments =
              s.tables.payments
              ++ proposed s.next_payment reference none PaymentStatus.completed (some at) ∷ [];
        };
      })
  unfolding Payment.store_payment order_fits mark_event_processed
  process_payment-first no_order =
      let ends = end_of_payment-Leaves _ in
      (
        ends.0,
        ends.1,
        process_payment-recorded
            ∙ bind-ok _ _ (sent env now) _
                (find_order_id-sent env now reference recorded none no_order)
            ∙ bind-ok _ _ (sent env now) _
                (upsert-new env now "upsert payment %q" reference none at _ payment_new refl)
            ∙ ends.2,
      )
