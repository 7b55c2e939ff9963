-- ===== src/Transaction/Redelivery.antt =====
-- A webhook that is delivered again, at once or later.
use order_sync.Base.{
  suc, String, trim_space, Bool, true, false, none, some, List, ◌≡◌, refl, ◌∙◌, arith, find_row,
  find_row-insert, has_row-some, has_row-none, text_eq_refl, Bool-cases, Option-cases, inl, inr,
}
use order_sync.Config.{Config}
use order_sync.Contracts.{Result, EventType, WebhookResult}
use order_sync.Postgres.Schema.{Db, Env, EventRow, Payload}
use order_sync.Postgres.Tx.{Tx, throw, continue_with, ◌>>=◌, wrapping, statement}
use order_sync.Postgres.Silent.{IsSilent}
use order_sync.Postgres.Evolution.{Steps, Steps-if, event_key}
use order_sync.Postgres.Queries.Events.{same_type, is_event, insert_event}
use order_sync.Postgres.Repositories.Events.{record_event}
use order_sync.Payment.Webhook as PaymentWebhook
use order_sync.Payment.Service as Payment
use order_sync.Shop.Webhook as ShopWebhook
use order_sync.Shop.Service as Shop
use order_sync.Transaction.{run, payment_process, shop_process}
use order_sync.Transaction.Evolution.{
  recorded_event-Steps, shop_new_event-Steps, shop_replay_event-Steps,
}
use order_sync.Transaction.Guarantees.{Request, serve, serve-Evolves}
use order_sync.Transaction.Replay.{IsDuplicate, payment_replay-IsSilent, shop_replay-IsSilent}

same_type_refl : (t : EventType) → same_type t t ≡ true
unfolding same_type
same_type_refl EventType.shop = refl
same_type_refl EventType.payment = refl

-- `Process` records the event, and goes on by whether it is new.
module _ (id : String) (event_type : EventType) (payload : Payload) (format : String)
    (next : Bool → Tx WebhookResult) where
  abbrev work : Tx WebhookResult
  work = wrapping format (record_event id event_type payload) >>= next

  abbrev Recorded : Db → Type 0
  Recorded s = (e : EventRow) × (find_row (is_event event_type id) s.tables.events ≡ some e)

  after_record :
      ((b : Bool) → Steps (next b))
      → (b : Bool) (env : Env) (s : Db) → Recorded s
      → Recorded (next b env s).1
  after_record steps b env s (e, found) =
      let (e', found', _) = ((steps b).apply env s).events (event_type, id) e found in (e', found')

  abbrev recording : Tx Bool
  recording = wrapping format (record_event id event_type payload)

  recording-Recorded :
      (env : Env) (s : Db) (b : Bool)
      → (recording env s).0 ≡ Result.ok b
      → Recorded (recording env s).1
  unfolding wrapping statement record_event insert_event
  recording-Recorded env s b h = elim (Bool-cases (env.fault s.calls)) [
    | inl lost ↦ ground arith
    | inr sent ↦ elim (Option-cases (find_row (is_event event_type id) s.tables.events)) [
      | inr (e, found) ↦
          (e, rw (sent, has_row-some (is_event event_type id) s.tables.events e found) found)
      | inl fresh ↦
          let x : EventRow = record {
            event_id = id;
            event_type = event_type;
            payload = payload;
            processed_at = none;
          } in
          (
            x,
            rw (sent, has_row-none (is_event event_type id) s.tables.events fresh)
                (find_row-insert (is_event event_type id) s.tables.events x
                  ∙ ground (arith, fresh, same_type_refl event_type, text_eq_refl id)),
          )
    ]
  ]

  -- A success has recorded the event.
  work-Recorded :
      ((b : Bool) → Steps (next b))
      → (env : Env) (s : Db) (r : WebhookResult) → (work env s).0 ≡ Result.ok r
      → Recorded (work env s).1
  unfolding ◌>>=◌ throw
  work-Recorded steps env s r h = by_record (recording env s).0 refl h
    where
      by_record :
          (b : Result Bool)
          → (recording env s).0 ≡ b
          → (continue_with b next env (recording env s).1).0 ≡ Result.ok r
          → Recorded (continue_with b next env (recording env s).1).1
      by_record (Result.ok b) e h =
          after_record steps b env (recording env s).1 (recording-Recorded env s b e)
      by_record (Result.err e) _ h = cc

  -- A recorded event changes nothing more.
  module _ (silent : IsSilent IsDuplicate (next false)) (env : Env) (s : Db)
      (known : Recorded s) where
    work-again :
        ((work env s).1.tables ≡ s.tables)
        × ((r : WebhookResult) → (work env s).0 ≡ Result.ok r → IsDuplicate r)
    unfolding ◌>>=◌ throw wrapping statement record_event insert_event
    work-again = elim (Bool-cases (env.fault s.calls)) [
      | inl lost ↦ rw lost (refl, λ r h. cc)
      | inr sent ↦
          let called = record s { calls = suc s.calls } in
          rw (sent, has_row-some (is_event event_type id) s.tables.events known.0 known.1)
            (silent.keeps env called, silent.gives env called)
    ]

module _ (work : Tx WebhookResult) (env : Env) (s : Db) where
  abbrev begun : Db
  begun = record s { calls = suc s.calls }

  run-success :
      (r : WebhookResult)
      → (run work env s).0 ≡ Result.ok r
      → ((work env begun).0 ≡ Result.ok r) × ((run work env s).1.tables ≡ (work env begun).1.tables)
  unfolding run
  run-success r h = (ground arith, ground arith)

  run-again :
      (work env begun).1.tables ≡ s.tables
      → ((r : WebhookResult) → (work env begun).0 ≡ Result.ok r → IsDuplicate r)
      → ((run work env s).1.tables ≡ s.tables)
        × ((r : WebhookResult) → (run work env s).0 ≡ Result.ok r → IsDuplicate r)
  unfolding run
  run-again keeps gives = (ground (arith, keeps), λ r h. gives r (run-success r h).0)

-- `Process` of the service that the webhook is for.
abbrev pub process : Config → Request → Tx WebhookResult
process cfg (Request.shop payload) = shop_process cfg payload
process cfg (Request.payment payload) = payment_process cfg payload

-- The key of the webhook's event.
abbrev pub event_of : Request → EventType × String
event_of (Request.shop payload) = (EventType.shop, trim_space payload.event_id)
event_of (Request.payment payload) = (EventType.payment, trim_space payload.event_id)

abbrev pub IsKnown : Request → Db → Type 0
IsKnown request s =
    (e : EventRow) × (find_row (event_key (event_of request)) s.tables.events ≡ some e)

process-IsKnown :
    (cfg : Config) (request : Request) (env : Env) (s : Db) (r : WebhookResult)
    → (process cfg request env s).0 ≡ Result.ok r
    → IsKnown request (process cfg request env s).1
unfolding shop_process payment_process Shop.process_shop Payment.process_payment
    ShopWebhook.normalize PaymentWebhook.normalize
process-IsKnown cfg (Request.shop payload) env s r h =
    let p = ShopWebhook.normalize payload in
    let (done, tables) = run-success (Shop.process_shop cfg p) env s r h in
    rw tables (
      work-Recorded p.event_id EventType.shop (Payload.shop p) "record shop event" _
        (λ b. Steps-if b _ _ (shop_new_event-Steps cfg p) (shop_replay_event-Steps cfg p)) env _ r
        done)
process-IsKnown cfg (Request.payment payload) env s r h =
    let p = PaymentWebhook.normalize env.upper payload in
    let (done, tables) = run-success (Payment.process_payment cfg p) env s r h in
    rw tables (
      work-Recorded p.event_id EventType.payment (Payload.payment p) "record payment event" _
        (recorded_event-Steps p cfg) env _ r done)

process-again :
    (cfg : Config) (request : Request) (env : Env) (s : Db)
    → IsKnown request s
    → ((process cfg request env s).1.tables ≡ s.tables)
      × ((r : WebhookResult) → (process cfg request env s).0 ≡ Result.ok r → IsDuplicate r)
unfolding shop_process payment_process Shop.process_shop Payment.process_payment
    ShopWebhook.normalize PaymentWebhook.normalize
process-again cfg (Request.shop payload) env s known =
    let p = ShopWebhook.normalize payload in
    let (keeps, gives) =
      work-again p.event_id EventType.shop (Payload.shop p) "record shop event" _
        (shop_replay-IsSilent p) env (begun (Shop.process_shop cfg p) env s) known in
    run-again (Shop.process_shop cfg p) env s keeps gives
process-again cfg (Request.payment payload) env s known =
    let p = PaymentWebhook.normalize env.upper payload in
    let (keeps, gives) =
      work-again p.event_id EventType.payment (Payload.payment p) "record payment event" _
        (payment_replay-IsSilent p) env (begun (Payment.process_payment cfg p) env s) known in
    run-again (Payment.process_payment cfg p) env s keeps gives

serve-IsKnown :
    (cfg : Config) (request : Request) (history : List (Env × Request)) (s : Db)
    → IsKnown request s
    → IsKnown request (serve cfg history s)
serve-IsKnown cfg request history s (e, found) =
    let (e', found', _) = (serve-Evolves cfg history s).events (event_of request) e found in
    (e', found')

-- A webhook that was processed, shop or payment: when it is delivered again, at once or after any other
-- webhooks, with any statements failing then, no table changes, and if it is answered without an error the
-- answer says that it is a duplicate.
pub redelivery_changes_nothing :
    (cfg : Config) (request : Request) (env : Env) (s : Db) (r : WebhookResult)
    → (process cfg request env s).0 ≡ Result.ok r
    → (history : List (Env × Request)) (env' : Env)
    → let u = serve cfg history (process cfg request env s).1 in
      ((process cfg request env' u).1.tables ≡ u.tables)
      × ((again : WebhookResult)
          → (process cfg request env' u).0 ≡ Result.ok again
          → again.duplicate ≡ true)
redelivery_changes_nothing cfg request env s r h history env' =
    process-again cfg request env' _
      (serve-IsKnown cfg request history _ (process-IsKnown cfg request env s r h))
