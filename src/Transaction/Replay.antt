-- ===== src/Transaction/Replay.antt =====
-- The branch `!newEvent` of the two services: it reads, and answers that the event is a duplicate.
use order_sync.Base.{ℕ, Char, String, Bool, true, false, Option, none, some, ◌≡◌, refl}
use order_sync.Contracts.{PaymentState, WebhookResult}
use order_sync.Postgres.Schema.{OrderRow}
use order_sync.Postgres.Silent.{
  IsSilent, Any, pure-IsSilent, throw-IsSilent, reads-IsSilent, wrapping-IsSilent, bind-IsSilent,
  if-IsSilent,
}
use order_sync.Postgres.Repositories.Orders as OrderRepository
use order_sync.Postgres.Repositories.Payments as PaymentRepository
use order_sync.Postgres.Repositories.Events as EventRepository
use order_sync.Payment.Webhook as PaymentWebhook
use order_sync.Payment.Service as Payment
use order_sync.Shop.Webhook as ShopWebhook
use order_sync.Shop.Service as Shop

abbrev pub IsDuplicate : WebhookResult → Type 0
IsDuplicate r = r.duplicate ≡ true

payment_result-IsSilent :
    (event_id order_id message : String) (id : Option ℕ)
    → IsSilent Any (Payment.payment_result event_id order_id message id)
unfolding Payment.payment_result OrderRepository.find_status_of
payment_result-IsSilent event_id order_id message none = pure-IsSilent Any _ tt
payment_result-IsSilent event_id order_id message (some _) =
    bind-IsSilent Any _ (λ status. pure-IsSilent Any _ tt) _
      (wrapping-IsSilent Any _ _ (reads-IsSilent _ _))

replay_existing-IsSilent :
    (payload : PaymentWebhook.Webhook) (existing : Option PaymentState)
    → IsSilent IsDuplicate (Payment.replay_existing payload existing)
replay_existing-IsSilent payload none = throw-IsSilent IsDuplicate _
replay_existing-IsSilent payload (some existing) =
    bind-IsSilent IsDuplicate _ (λ result. pure-IsSilent IsDuplicate _ refl) _
      (payment_result-IsSilent _ _ _ _)

replay_matching-IsSilent :
    (payload : PaymentWebhook.Webhook) (same : Bool)
    → IsSilent IsDuplicate (Payment.replay_matching payload same)
unfolding PaymentRepository.find
replay_matching-IsSilent payload false = throw-IsSilent IsDuplicate _
replay_matching-IsSilent payload true =
    bind-IsSilent IsDuplicate _ (replay_existing-IsSilent payload) _ (
      wrapping-IsSilent Any _ _
        (bind-IsSilent Any _ (λ row. pure-IsSilent Any _ tt) _ (reads-IsSilent _ _)))

pub payment_replay-IsSilent :
    (payload : PaymentWebhook.Webhook) → IsSilent IsDuplicate (Payment.replay_event payload)
unfolding Payment.replay_event EventRepository.find_payload
payment_replay-IsSilent payload =
    let with_upper : (upper : Char → Char)
        → IsSilent IsDuplicate (Payment.replay_with upper payload) =
      λ upper.
        bind-IsSilent IsDuplicate _ (λ stored. replay_matching-IsSilent payload _) _
          (wrapping-IsSilent Any _ _ (reads-IsSilent _ _)) in
    record {
      keeps = λ env s. (with_upper env.upper).keeps env s;
      gives = λ env s r e. (with_upper env.upper).gives env s r e;
    }

with_items-IsSilent : (row : Option OrderRow) → IsSilent Any (OrderRepository.with_items row)
unfolding OrderRepository.list_items
with_items-IsSilent none = pure-IsSilent Any _ tt
with_items-IsSilent (some r) =
    bind-IsSilent Any _ (λ items. pure-IsSilent Any _ tt) _ (reads-IsSilent _ _)

require_same_order-IsSilent :
    (payload : ShopWebhook.Webhook) → IsSilent Any (Shop.require_same_order payload)
unfolding Shop.require_same_order OrderRepository.find
require_same_order-IsSilent payload =
    bind-IsSilent Any _
      (λ existing. if-IsSilent Any _ _ _ (pure-IsSilent Any _ tt) (throw-IsSilent Any _)) _
      (wrapping-IsSilent Any _ _ (bind-IsSilent Any _ with_items-IsSilent _ (reads-IsSilent _ _)))

shop_result-IsSilent :
    (event_id order_id message : String) → IsSilent Any (Shop.shop_result event_id order_id message)
unfolding Shop.shop_result OrderRepository.find_status_of
shop_result-IsSilent event_id order_id message =
    bind-IsSilent Any _ (λ status. pure-IsSilent Any _ tt) _
      (wrapping-IsSilent Any _ _ (reads-IsSilent _ _))

pub shop_replay-IsSilent :
    (payload : ShopWebhook.Webhook) → IsSilent IsDuplicate (Shop.replay_event payload)
unfolding Shop.replay_event
shop_replay-IsSilent payload =
    bind-IsSilent IsDuplicate _
      (λ done.
        bind-IsSilent IsDuplicate _ (λ result. pure-IsSilent IsDuplicate _ refl) _
          (shop_result-IsSilent _ _ _))
      _ (require_same_order-IsSilent payload)
