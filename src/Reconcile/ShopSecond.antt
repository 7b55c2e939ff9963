-- ===== src/Reconcile/ShopSecond.antt =====
-- processShop of an order whose completed payment is stored: reconcilePayment of internal/shop/service.go.
use order_sync.Base.{
  ℕ, suc, String, Bool, true, false, not, ◌&&◌, Option, none, some, List, [], ◌∷◌, ◌++◌, ◌≡◌, refl,
  ap, ◌∙◌, arith, find_row, has_row, has_row-none, find_row-insert, find_row-narrower, update_rows,
  update_rows-append, update_rows-none, text_eq_refl,
}
use order_sync.Config.{Config}
use order_sync.Contracts.{Result, Time, PaymentStatus}
use order_sync.Postgres.Queries.Events.{mark_payment_events_processed}
use order_sync.Postgres.Queries.Orders.{has_id, of_order, pays_for, new_job, due_after}
use order_sync.Postgres.Queries.Payments.{has_reference, order_fits, proposed, link_payment_order}
use order_sync.Postgres.Queries.Skus.{has_hardware_sku}
use order_sync.Postgres.Repositories.Events as EventRepository
use order_sync.Postgres.Repositories.Payments as PaymentRepository
use order_sync.Postgres.Schema.{OrderRow, PaymentRow, Tables, Db, Env}
use order_sync.Postgres.Tx.{wrapping, statement, writes}
use order_sync.Reconcile.{sent}
use order_sync.Reconcile.Calls.{Leaves, bind-ok, wrapping-ok, stored-has_row, find_payment-sent}
use order_sync.Reconcile.Paid.{paid_row, delay_of, mark_paid_and_schedule-new}
use order_sync.Shop.Service as Shop
use order_sync.Shop.Webhook as ShopWebhook

-- A completed payment without an order, the newest of the table.
abbrev pub stored_payment : ℕ → String → Option ℕ → Time → PaymentRow
stored_payment payment reference order_id at =
    proposed payment reference order_id PaymentStatus.completed (some at)

module _ (reference : String) (at : Time) (payment : ℕ) (earlier : List PaymentRow)
    (payment_new : find_row (has_reference reference) earlier ≡ none) where
  abbrev x : PaymentRow
  x = stored_payment payment reference none at

  pub stored_payment-found : find_row (has_reference reference) (earlier ++ x ∷ []) ≡ some x
  stored_payment-found =
      find_row-insert (has_reference reference) earlier x
      ∙ rw (payment_new, text_eq_refl reference) refl

  pub order_fits-stored :
      (id : ℕ) (t : Tables)
      → t.payments ≡ earlier ++ x ∷ []
      → has_row (has_id id) t.orders ≡ true
      → find_row (pays_for id) earlier ≡ none
      → order_fits reference (some id) t ≡ true
  unfolding order_fits
  order_fits-stored id t last known unpaid =
      let other : PaymentRow → Bool = λ p. not (has_reference reference p) && pays_for id p in
      rw
        (
          known,
          last,
          has_row-none other (earlier ++ x ∷ []) (
              find_row-insert other earlier x
              ∙ rw
                  (
                    find_row-narrower (pays_for id) other (λ p h. ground (arith, h)) earlier unpaid,
                    text_eq_refl reference,
                  )
                  refl),
        )
        refl

  abbrev is_unlinked : PaymentRow → Bool
  is_unlinked p = has_reference reference p && elim p.order_id [ none ↦ true | some _ ↦ false ]

  pub link_payment_order-stored :
      (id : ℕ) (format : String) (env : Env) (now : Time) (u : Db)
      → u.tables.payments ≡ earlier ++ x ∷ []
      → order_fits reference (some id) u.tables ≡ true
      → wrapping format (PaymentRepository.link_order reference id) (sent env now) u ≡ (
        Result.ok tt,
        record u {
          calls = suc u.calls;
          tables = record (u.tables) {
            payments = earlier ++ stored_payment payment reference (some id) at ∷ [];
          };
        },
      )
  unfolding PaymentRepository.link_order link_payment_order wrapping statement update_rows
  link_payment_order-stored id format env now u last fits =
      let link : PaymentRow → PaymentRow = λ p. record p { order_id = some id } in
      rw
        (
          fits,
          last,
          update_rows-append is_unlinked link earlier (x ∷ []),
          update_rows-none is_unlinked link earlier (
              find_row-narrower (has_reference reference) is_unlinked (λ p h. ground (arith, h))
                earlier payment_new),
          text_eq_refl reference,
        )
        refl

module _ (cfg : Config) (w : ShopWebhook.Webhook) (env : Env) (now at : Time) (payment : ℕ)
    (earlier : List PaymentRow) (rows : List OrderRow) (r : OrderRow) where
  mark_payment_events-sent :
      (u : Db)
      → Shop.mark_payment_events w (sent env now) u ≡ (
        Result.ok tt,
        record u {
          calls = suc u.calls;
          tables = mark_payment_events_processed w.order_id now u.tables;
        },
      )
  unfolding EventRepository.mark_payment_events wrapping statement writes
  mark_payment_events-sent u = refl

  -- The payment is linked and the order is paid and scheduled.
  abbrev pub reconciled_with : Db → Db
  reconciled_with u = record u {
    next_job = suc u.next_job;
    tables = mark_payment_events_processed w.order_id now (record (u.tables) {
      orders = rows ++ paid_row at r ∷ [];
      payments = earlier ++ stored_payment payment w.order_id (some r.id) at ∷ [];
      jobs =
          u.tables.jobs
          ++ new_job u.next_job r.id (due_after now (delay_of cfg w.items u.tables)) ∷ [];
    });
  }

  pub reconcile_payment-completed :
      (u : Db)
      → u.tables.orders ≡ rows ++ r ∷ []
      → find_row (has_id r.id) rows ≡ none
      → u.tables.payments ≡ earlier ++ stored_payment payment w.order_id none at ∷ []
      → find_row (has_reference w.order_id) earlier ≡ none
      → find_row (pays_for r.id) earlier ≡ none
      → find_row (of_order r.id) u.tables.jobs ≡ none
      → Leaves (Shop.reconcile_payment cfg w r.id) (sent env now) u (reconciled_with u)
  unfolding Shop.reconcile_payment Shop.reconcile_status has_hardware_sku
  reconcile_payment-completed u last absent stored payment_new unpaid no_job =
      let called = record u { calls = suc u.calls } in
      let known : has_row (has_id r.id) u.tables.orders ≡ true =
        ap (has_row (has_id r.id)) last ∙ stored-has_row rows r in
      let linked =
        link_payment_order-stored w.order_id at payment earlier payment_new r.id
          "link payment to order %d" env now called stored
          (order_fits-stored w.order_id at payment earlier payment_new r.id u.tables stored known
            unpaid) in
      let scheduled =
        mark_paid_and_schedule-new env now cfg w.items at
          (record called {
            calls = suc called.calls;
            tables = record (u.tables) {
              payments = earlier ++ stored_payment payment w.order_id (some r.id) at ∷ [];
            };
          })
          rows r last absent no_job in
      (
        tt,
        suc scheduled.1,
        bind-ok _ _ (sent env now) u (
              find_payment-sent env now "find payment for order %q" w.order_id u _ (
                ap (find_row (has_reference w.order_id)) stored
                ∙ stored_payment-found w.order_id at payment earlier payment_new))
            ∙ bind-ok _ _ (sent env now) called linked
            ∙ bind-ok _ _ (sent env now) _
                (wrapping-ok "mark order %d paid" _ (sent env now) _ scheduled.2)
            ∙ mark_payment_events-sent _,
      )
