-- ===== src/Tests/Cancellation.antt =====
-- A cancelled payment and a digital order: the order is cancelled where the payment comes first, and the payment is
-- refused where the order does.
use order_sync.Base.{
  false, none, some, [], ◌∷◌, ◌≡◌, refl, find_row, filter_rows, has_row, update_rows, text_eq,
  trim_space, to_upper, is_empty,
}
use order_sync.Contracts.{Error, Result, OrderState, stored_price}
use order_sync.Orders.{any_override}
use order_sync.Payment.Service as Payment
use order_sync.Payment.Webhook as PaymentWebhook
use order_sync.Postgres.Queries.Events.{
  insert_event, mark_event_processed, mark_payment_events_processed, same_type,
}
use order_sync.Postgres.Queries.Orders.{
  insert_order, insert_item, find_order_id, find_order, find_status, find_items, cancel_order,
  mark_cancelled_order, cancel_job,
}
use order_sync.Postgres.Queries.Payments as Payments
use order_sync.Postgres.Queries.Payments.{find_payment, order_fits, link_payment_order}
use order_sync.Postgres.Repositories.Events as EventRepository
use order_sync.Postgres.Repositories.Orders as OrderRepository
use order_sync.Postgres.Repositories.Payments as PaymentRepository
use order_sync.Postgres.Tx.{◌>>=◌, pure, throw, wrapping, statement, reads, writes}
use order_sync.Shop.Service as Shop
use order_sync.Shop.Webhook as ShopWebhook
use order_sync.Tests.Data.{cfg, env_at, empty_db, lock_item, shop_webhook, cancel_webhook}
use order_sync.Transaction.{payment_process, shop_process, run}
use order_sync.Transaction.Guarantees.{Request, handle}

abbrev digital_order : ShopWebhook.Webhook
digital_order = record shop_webhook { items = (record lock_item { is_hardware = some false }) ∷ [] }

order_decides :
    (find_order "A-1"
        (handle cfg
          (Request.shop digital_order)
          (env_at 2000)
          (handle cfg (Request.payment cancel_webhook) (env_at 1000) empty_db)).tables
      ≡ some (record {
        id = 1;
        order_id = "A-1";
        customer_email = "a@b.example";
        payment_status = OrderState.cancelled;
        sap_id = none;
        paid_at = none;
      }))
    × ((payment_process cfg cancel_webhook
          (env_at 2000)
          (handle cfg (Request.shop digital_order) (env_at 1000) empty_db)).0
        ≡ Result.err (Error.wrap "run transaction work" Error.digital_cancellation))
unfolding payment_process shop_process run handle Payment.process_payment Payment.apply_event
    Payment.find_order_id Payment.cancel_payment Payment.require_hardware Payment.payment_item_skus
    any_override Payment.payment_result PaymentWebhook.normalize PaymentWebhook.normalize_status
    PaymentWebhook.status_of_text PaymentWebhook.text_of_status Shop.process_shop Shop.new_event
    Shop.store_order Shop.reconcile_payment Shop.reconcile_status Shop.shop_result
    ShopWebhook.normalize EventRepository.record_event EventRepository.mark_processed
    EventRepository.mark_payment_events OrderRepository.create OrderRepository.find_id
    OrderRepository.find_status_of OrderRepository.add_items OrderRepository.cancel
    OrderRepository.list_items OrderRepository.has_hardware PaymentRepository.find
    PaymentRepository.cancel PaymentRepository.link_order insert_event mark_event_processed
    mark_payment_events_processed same_type insert_order insert_item find_order_id find_order
    find_status find_items cancel_order mark_cancelled_order cancel_job find_payment
    Payments.cancel_payment order_fits link_payment_order stored_price find_row filter_rows has_row
    update_rows ◌>>=◌ pure throw wrapping statement reads writes text_eq to_upper trim_space
    is_empty
order_decides = (refl, refl)
