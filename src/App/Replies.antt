-- ===== src/App/Replies.antt =====
-- What a sender of webhooks may conclude from the code of the reply: internal/app/router.go on top of the
-- services.
use order_sync.Base.{
  ℕ, ◌≤◌, ◌<◌, String, true, Option, List, [], ◌∷◌, ◌≡◌, refl, subst, sym, ◌⊎◌, ◌↔◌, inl, inr,
  arith, Bool-cases,
}
use order_sync.Config.{Config}
use order_sync.Contracts.{Error, Result, Sentinel, WebhookResult, ValidationIssue, is_error}
use order_sync.Payment.Webhook as PaymentWebhook
use order_sync.Postgres.Schema.{Db, Env}
use order_sync.Postgres.Tx.{Tx}
use order_sync.Shop.Webhook as ShopWebhook
use order_sync.Transaction.{payment_process, shop_process}
use order_sync.Transaction.Guarantees.{error_changes_nothing}
use order_sync.App.Router.{
  HttpReply, HttpRequest, Decoding, decode, write_webhook_process_error, reply_of, process_valid,
  process_decoded, process_webhook, webhook_auth, shop_status, payment_status, shop_webhook,
  payment_webhook,
}

-- An error that the sender is told about: a conflict with what is stored.
abbrev pub IsConflict : Error → Type 0
IsConflict e = (s : Sentinel) × (is_error e s ≡ true)

process_error_code :
    (e : Error)
    → ((write_webhook_process_error e).code ≡ 409) ⊎ ((write_webhook_process_error e).code ≡ 500)
unfolding write_webhook_process_error
process_error_code e = ground arith

code-IsConflict : (e : Error) → ((write_webhook_process_error e).code ≡ 409) ↔ IsConflict e
unfolding write_webhook_process_error
code-IsConflict e = (only, enough)
  where
    enough : IsConflict e → (write_webhook_process_error e).code ≡ 409
    enough (Sentinel.finalized, h) = ground arith
    enough (Sentinel.order_conflict, h) = ground arith
    enough (Sentinel.payment_conflict, h) = ground arith
    enough (Sentinel.digital, h) = ground arith
    enough (Sentinel.cannot_cancel, h) = ground arith

    only : (write_webhook_process_error e).code ≡ 409 → IsConflict e
    only h = elim (Bool-cases (is_error e Sentinel.finalized)) [
      | inl yes_1 ↦ (Sentinel.finalized, yes_1)
      | inr no_1 ↦ elim (Bool-cases (is_error e Sentinel.order_conflict)) [
        | inl yes_2 ↦ (Sentinel.order_conflict, yes_2)
        | inr no_2 ↦ elim (Bool-cases (is_error e Sentinel.payment_conflict)) [
          | inl yes_3 ↦ (Sentinel.payment_conflict, yes_3)
          | inr no_3 ↦ elim (Bool-cases (is_error e Sentinel.digital)) [
            | inl yes_4 ↦ (Sentinel.digital, yes_4)
            | inr no_4 ↦ (Sentinel.cannot_cancel, ground arith)
          ]
        ]
      ]
    ]

module _ {T : Type 0} (process : T → Tx WebhookResult) (normalize : T → T)
    (validate : T → List ValidationIssue) (status : WebhookResult → ℕ)
    (succeeds : (r : WebhookResult) → status r < 400) (env : Env) (s : Db)
    (rolls_back : (t : T) (e : Error)
      → (process t env s).0 ≡ Result.err e
      → (process t env s).1.tables ≡ s.tables) where
  process_valid-rejects :
      (t : T) (issues : List ValidationIssue)
      → let (reply, s') = process_valid process normalize validate status t issues env s in
        400 ≤ reply.code → s'.tables ≡ s.tables
  process_valid-rejects t (issue ∷ issues) h = refl
  process_valid-rejects t [] h = by_result (process t env s).0 refl
    where
      by_result :
          (r : Result WebhookResult)
          → (process t env s).0 ≡ r
          → (process t env s).1.tables ≡ s.tables
      by_result (Result.err e) eq = rolls_back t e eq
      by_result (Result.ok r) eq = ground (arith, succeeds r)

  process_webhook-rejects :
      (r : HttpRequest T)
      → let (reply, s') = process_webhook process normalize validate status r env s in
        400 ≤ reply.code → s'.tables ≡ s.tables
  unfolding process_webhook
  process_webhook-rejects r = by_decoding (decode r)
    where
      by_decoding :
          (d : Decoding T)
          → let (reply, s') = process_decoded process normalize validate status d env s in
            400 ≤ reply.code → s'.tables ≡ s.tables
      by_decoding (Decoding.failed e) h = refl
      by_decoding (Decoding.complete t) h =
          process_valid-rejects (normalize t) (validate (normalize t)) h

webhook_auth-rejects :
    (secret header : String) (next : Env → Db → HttpReply × Db) (env : Env) (s : Db)
    → (400 ≤ (next env s).0.code → (next env s).1.tables ≡ s.tables)
    → let (reply, s') = webhook_auth secret header next env s in
      400 ≤ reply.code → s'.tables ≡ s.tables
unfolding webhook_auth
webhook_auth-rejects secret header next env s inner h = ground (arith, inner)

-- A webhook that is answered with a code of 400 or more, for whatever reason (the secret, the body, the
-- checks, a conflict, or a statement that failed), has left every table as it was.
pub rejected_changes_nothing :
    (parse_address : String → Option String) (cfg : Config) (env : Env) (s : Db)
    → ((r : HttpRequest ShopWebhook.Webhook)
        → 400 ≤ (shop_webhook parse_address cfg r env s).0.code
        → (shop_webhook parse_address cfg r env s).1.tables ≡ s.tables)
      × ((r : HttpRequest PaymentWebhook.Webhook)
          → 400 ≤ (payment_webhook cfg r env s).0.code
          → (payment_webhook cfg r env s).1.tables ≡ s.tables)
unfolding shop_webhook payment_webhook
rejected_changes_nothing parse_address cfg env s = (
  λ r.
      webhook_auth-rejects cfg.webhook_secret r.secret
        (process_webhook (shop_process cfg) ShopWebhook.normalize
          (ShopWebhook.validate parse_address) shop_status r)
        env s
        (process_webhook-rejects (shop_process cfg) ShopWebhook.normalize
          (ShopWebhook.validate parse_address) shop_status (λ x. ground arith) env s
          (λ t e. (error_changes_nothing cfg env s e).1 t) r),
  λ r.
      webhook_auth-rejects cfg.webhook_secret r.secret
        (process_webhook (payment_process cfg) (PaymentWebhook.normalize env.upper)
          (PaymentWebhook.validate env.parse_rfc3339) payment_status r)
        env s
        (process_webhook-rejects (payment_process cfg) (PaymentWebhook.normalize env.upper)
          (PaymentWebhook.validate env.parse_rfc3339) payment_status (λ x. ground arith) env s
          (λ t e. (error_changes_nothing cfg env s e).0 t) r),
)

code_internal : (e : Error) → (((write_webhook_process_error e).code ≡ 500) ↔ (¬ IsConflict e))
code_internal e = (
  λ h c. ground (arith, h, (code-IsConflict e).1 c),
  λ n. elim (process_error_code e) [
    | inl conflict ↦ absurd (n ((code-IsConflict e).0 conflict))
    | inr internal ↦ internal
  ],
)

-- A webhook whose body decodes to a payload that passes the checks, where the codes of a success are below
-- 400: it is answered with 409 exactly when its processing fails with one of the five conflicts, through
-- any wrapping, and with 500 exactly when it fails with any other error.
pub process_webhook_codes :
    {T : Type 0} (process : T → Tx WebhookResult) (normalize : T → T)
    (validate : T → List ValidationIssue) (status : WebhookResult → ℕ)
    → ((r : WebhookResult) → status r < 400)
    → (env : Env) (s : Db) (r : HttpRequest T) (t : T) → decode r ≡ Decoding.complete t
    → validate (normalize t) ≡ []
    → let code = (process_webhook process normalize validate status r env s).0.code in
      ((code ≡ 409)
        ↔ ((e : Error) × ((process (normalize t) env s).0 ≡ Result.err e) × IsConflict e))
      × ((code ≡ 500)
          ↔ ((e : Error) × ((process (normalize t) env s).0 ≡ Result.err e) × (¬ IsConflict e)))
unfolding process_webhook
process_webhook_codes process normalize validate status succeeds env s r t decodes valid =
    rw (decodes, valid) (by_result (process (normalize t) env s).0)
  where
    by_result :
        (o : Result WebhookResult)
        → (((reply_of status o).code ≡ 409) ↔ ((e : Error) × (o ≡ Result.err e) × IsConflict e))
          × (((reply_of status o).code ≡ 500)
              ↔ ((e : Error) × (o ≡ Result.err e) × (¬ IsConflict e)))
    by_result (Result.ok x) = (
      (λ h. ground (arith, succeeds x), λ (e, same, c). ground arith),
      (λ h. ground (arith, succeeds x), λ (e, same, c). ground arith),
    )
    by_result (Result.err e) = (
      (
        λ h. (e, refl, (code-IsConflict e).0 h),
        λ (f, same, c).
            (code-IsConflict e).1 (subst IsConflict (sym (err_inj e f (Result.err e) refl same)) c),
      ),
      (
        λ h. (e, refl, (code_internal e).0 h),
        λ (f, same, c).
            (code_internal e).1
              (subst (λ g. ¬ IsConflict g) (sym (err_inj e f (Result.err e) refl same)) c),
      ),
    )
      where
        err_inj :
            (a b : Error) (o : Result WebhookResult) → o ≡ Result.err a → o ≡ Result.err b → a ≡ b
        err_inj a b o h k = cc (h, k)
