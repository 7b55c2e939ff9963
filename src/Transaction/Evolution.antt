-- ===== src/Transaction/Evolution.antt =====
-- Whatever a webhook holds and whichever statements fail, its transaction takes the tables forward.
use order_sync.Base.{
  ℕ, suc, String, Bool, true, false, refl, arith, Char, Option, none, some, List, Bool-cases, inl,
  inr,
}
use order_sync.Config.{Config}
use order_sync.Contracts.{Result, Time, PaymentStatus, PaymentState, OrderItem}
use order_sync.Postgres.Schema.{Db, Env}
use order_sync.Postgres.Tx.{Tx}
use order_sync.Postgres.Ids.{Draws, Draws-same, Draws-trans}
use order_sync.Postgres.Evolution.{Evolves, Evolves-refl, Steps, Steps-env, repository_rules}
use order_sync.Orders.{mark_paid_and_schedule}
use order_sync.Payment.Webhook.{Webhook, normalize}
use order_sync.Payment.Service as Payment
use order_sync.Shop.Webhook as ShopWebhook
use order_sync.Shop.Service as Shop
use order_sync.Transaction.{finish, run, payment_process, shop_process}

mark_paid_and_schedule-Steps :
    (cfg : Config) (id : ℕ) (items : List OrderItem) (at : Time)
    → Steps (mark_paid_and_schedule cfg id items at)
unfolding mark_paid_and_schedule
mark_paid_and_schedule-Steps cfg id items at = search repository_rules

module _ (payload : Webhook) where
  payment_result-Steps :
      (message : String) (id : Option ℕ)
      → Steps (Payment.payment_result payload.event_id payload.reference_order_id message id)
  unfolding Payment.payment_result
  payment_result-Steps message none = search repository_rules
  payment_result-Steps message (some _) = search repository_rules

  replay_existing-Steps : (o : Option PaymentState) → Steps (Payment.replay_existing payload o)
  replay_existing-Steps none = search repository_rules
  replay_existing-Steps (some existing) = search (repository_rules, payment_result-Steps)

  replay_matching-Steps : (b : Bool) → Steps (Payment.replay_matching payload b)
  replay_matching-Steps false = search repository_rules
  replay_matching-Steps true = search (repository_rules, replay_existing-Steps)

  replay_with-Steps : (upper : Char → Char) → Steps (Payment.replay_with upper payload)
  replay_with-Steps upper = search (repository_rules, replay_matching-Steps)

  replay_event-Steps : Steps (Payment.replay_event payload)
  unfolding Payment.replay_event
  replay_event-Steps =
      Steps-env (λ env. Payment.replay_with env.upper payload) (λ env. replay_with-Steps env.upper)

  replay_terminal-Steps :
      (existing : PaymentState) → Steps (Payment.replay_terminal payload existing)
  unfolding Payment.replay_terminal
  replay_terminal-Steps existing = search (repository_rules, payment_result-Steps)

  find_order_id-Steps : (reference : String) → Steps (Payment.find_order_id reference)
  unfolding Payment.find_order_id
  find_order_id-Steps reference = search repository_rules

  require_hardware-Steps : (id : ℕ) → Steps (Payment.require_hardware id)
  unfolding Payment.require_hardware
  require_hardware-Steps id = search repository_rules

  cancel_payment-Steps : (id : Option ℕ) → Steps (Payment.cancel_payment payload id)
  unfolding Payment.cancel_payment
  cancel_payment-Steps none = search repository_rules
  cancel_payment-Steps (some id) =
      search (repository_rules, require_hardware-Steps, payment_result-Steps) depth 8

  module _ (cfg : Config) where
    schedule_paid-Steps :
        (id : ℕ) (items : List OrderItem) (at : Option Time)
        → Steps (Payment.schedule_paid cfg id items at)
    schedule_paid-Steps id items none = search repository_rules
    schedule_paid-Steps id items (some at) = search (repository_rules, mark_paid_and_schedule-Steps)

    complete_payment-Steps :
        (state : PaymentState) (id : ℕ) → Steps (Payment.complete_payment cfg payload state id)
    unfolding Payment.complete_payment
    complete_payment-Steps state id = search (repository_rules, schedule_paid-Steps) depth 8

    after_completed-Steps :
        (state : PaymentState) (id : Option ℕ)
        → Steps (Payment.after_completed cfg payload state id)
    after_completed-Steps state none = search repository_rules
    after_completed-Steps state (some id) =
        search (repository_rules, complete_payment-Steps, payment_result-Steps)

    after_upsert-Steps :
        (state : PaymentState) (id : Option ℕ) (b : Bool)
        → Steps (Payment.after_upsert cfg payload state id b)
    after_upsert-Steps state id true = after_completed-Steps state id
    after_upsert-Steps state id false = search (repository_rules, payment_result-Steps)

    store_payment-Steps :
        (at : Time) (id : Option ℕ) → Steps (Payment.store_payment cfg payload at id)
    unfolding Payment.store_payment
    store_payment-Steps at id = search (repository_rules, after_upsert-Steps)

    apply_at-Steps : (at : Option Time) → Steps (Payment.apply_at cfg payload at)
    apply_at-Steps none = search repository_rules
    apply_at-Steps (some at) =
        search (repository_rules, find_order_id-Steps, cancel_payment-Steps, store_payment-Steps)

    apply_event-Steps : Steps (Payment.apply_event cfg payload)
    unfolding Payment.apply_event
    apply_event-Steps =
        Steps-env (λ env. Payment.apply_at cfg payload (env.parse_rfc3339 payload.timestamp))
          (λ env. apply_at-Steps (env.parse_rfc3339 payload.timestamp))

    new_event-Steps : (o : Option PaymentState) → Steps (Payment.new_event cfg payload o)
    new_event-Steps none = apply_event-Steps
    new_event-Steps (some existing) =
        search (repository_rules, replay_terminal-Steps, apply_event-Steps)

    pub recorded_event-Steps : (b : Bool) → Steps (Payment.recorded_event cfg payload b)
    recorded_event-Steps false = replay_event-Steps
    recorded_event-Steps true = search (repository_rules, new_event-Steps)

    process_payment-Steps : Steps (Payment.process_payment cfg payload)
    unfolding Payment.process_payment
    process_payment-Steps = search (repository_rules, recorded_event-Steps)

module _ (cfg : Config) (payload : ShopWebhook.Webhook) where
  shop_result-Steps :
      (message : String) → Steps (Shop.shop_result payload.event_id payload.order_id message)
  unfolding Shop.shop_result
  shop_result-Steps message = search repository_rules

  require_same_order-Steps : Steps (Shop.require_same_order payload)
  unfolding Shop.require_same_order
  require_same_order-Steps = search repository_rules

  pub shop_replay_event-Steps : Steps (Shop.replay_event payload)
  unfolding Shop.replay_event
  shop_replay_event-Steps = search (repository_rules, require_same_order-Steps, shop_result-Steps)

  replay_order-Steps : Steps (Shop.replay_order payload)
  unfolding Shop.replay_order
  replay_order-Steps =
      search (repository_rules, require_same_order-Steps, shop_result-Steps) depth 8

  link_if_unlinked-Steps : (id : ℕ) (o : Option ℕ) → Steps (Shop.link_if_unlinked payload id o)
  link_if_unlinked-Steps id (some _) = search repository_rules
  link_if_unlinked-Steps id none = search repository_rules

  reconcile_completed-Steps :
      (id : ℕ) (at : Option Time) → Steps (Shop.reconcile_completed cfg payload id at)
  reconcile_completed-Steps id none = search repository_rules
  reconcile_completed-Steps id (some at) = search (repository_rules, mark_paid_and_schedule-Steps)

  reconcile_by-Steps :
      (id : ℕ) (at : Option Time) (status : PaymentStatus)
      → Steps (Shop.reconcile_by cfg payload id at status)
  reconcile_by-Steps id at PaymentStatus.cancelled = search repository_rules
  reconcile_by-Steps id at PaymentStatus.completed = reconcile_completed-Steps id at
  reconcile_by-Steps id at _ = search repository_rules

  reconcile_status-Steps :
      (id : ℕ) (state : PaymentState) → Steps (Shop.reconcile_status cfg payload id state)
  unfolding Shop.reconcile_status
  reconcile_status-Steps id state = reconcile_by-Steps id state.paid_at state.status

  reconcile_found-Steps :
      (id : ℕ) (o : Option PaymentState) → Steps (Shop.reconcile_found cfg payload id o)
  reconcile_found-Steps id none = search repository_rules
  reconcile_found-Steps id (some state) =
      search (repository_rules, link_if_unlinked-Steps, reconcile_status-Steps)

  reconcile_payment-Steps : (id : ℕ) → Steps (Shop.reconcile_payment cfg payload id)
  unfolding Shop.reconcile_payment
  reconcile_payment-Steps id = search (repository_rules, reconcile_found-Steps)

  store_order-Steps : (id : ℕ) → Steps (Shop.store_order cfg payload id)
  unfolding Shop.store_order
  store_order-Steps id =
      search (repository_rules, reconcile_payment-Steps, shop_result-Steps) depth 9

  pub shop_new_event-Steps : Steps (Shop.new_event cfg payload)
  unfolding Shop.new_event
  shop_new_event-Steps = search (repository_rules, replay_order-Steps, store_order-Steps)

  process_shop-Steps : Steps (Shop.process_shop cfg payload)
  unfolding Shop.process_shop
  process_shop-Steps = search (repository_rules, shop_new_event-Steps, shop_replay_event-Steps)

finish-Evolves :
    {A : Type 0} (before : Db) (r : Result A) (env : Env) (s : Db)
    → Evolves before.tables s.tables
    → Evolves before.tables (finish before r env s).1.tables
finish-Evolves before (Result.err e) env s h = Evolves-refl before.tables
finish-Evolves before (Result.ok a) env s h = elim (Bool-cases (env.fault s.calls)) [
  | inl lost ↦ rw lost (Evolves-refl before.tables)
  | inr sent ↦ rw sent h
]

finish-Draws :
    {A : Type 0} (before : Db) (r : Result A) (env : Env) (s : Db)
    → Draws before s
    → Draws before (finish before r env s).1
finish-Draws before (Result.err e) env s h = Draws-same before _ refl h.later
finish-Draws before (Result.ok a) env s h = elim (Bool-cases (env.fault s.calls)) [
  | inl lost ↦ rw lost (Draws-same before _ refl h.later)
  | inr sent ↦ rw sent (Draws-trans before s _ h (Draws-same s _ refl (omega arith)))
]

run-Steps : {A : Type 0} (work : Tx A) → Steps work → Steps (run work)
unfolding run
run-Steps work h = record {
  apply = λ env s. elim (Bool-cases (env.fault s.calls)) [
    | inl lost ↦ rw lost (Evolves-refl s.tables)
    | inr sent ↦
        let begun = record s { calls = suc s.calls } in
        rw sent (finish-Evolves begun (work env begun).0 env (work env begun).1 (h.apply env begun))
  ];
  draws = λ env s.
      let begun = record s { calls = suc s.calls } in
      elim (Bool-cases (env.fault s.calls)) [
        | inl lost ↦ rw lost (Draws-same s begun refl (omega arith))
        | inr sent ↦ rw sent (
            Draws-trans s begun _ (Draws-same s begun refl (omega arith))
              (finish-Draws begun (work env begun).0 env (work env begun).1 (h.draws env begun)))
      ];
}

pub payment_process-Steps : (cfg : Config) (payload : Webhook) → Steps (payment_process cfg payload)
unfolding payment_process
payment_process-Steps cfg payload =
    Steps-env (λ env. run (Payment.process_payment cfg (normalize env.upper payload)))
      (λ env. run-Steps _ (process_payment-Steps (normalize env.upper payload) cfg))

pub shop_process-Steps :
    (cfg : Config) (payload : ShopWebhook.Webhook) → Steps (shop_process cfg payload)
unfolding shop_process
shop_process-Steps cfg payload =
    run-Steps _ (process_shop-Steps cfg (ShopWebhook.normalize payload))
