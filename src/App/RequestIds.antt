-- ===== src/App/RequestIds.antt =====
-- requestIDMiddleware of internal/app/router.go over many requests: the identifiers that it makes.
use Prim.Native.Char.{code}
use Prim.Native.String.append
use Prim.Native.String.{◌++◌}
use order_sync.Base.{
  ℕ, ◌+◌, ◌-◌, ◌^◌, ◌%◌, ◌<◌, ◌≤◌, String, Bool, true, false, ◌||◌, Option, List, [], ◌∷◌, ◌≡◌,
  refl, sym, ap, arith, ◌∙◌, ◌==◌, length, trim_space, is_empty, Bool-cases, inl, inr,
}
use order_sync.Config.{Config}
use order_sync.Postgres.Schema.{Env}
use order_sync.App.Router.{HttpReply}
use order_sync.App.Routes.{
  Gin, Strconv, Incoming, AppState, Answer, next_sequence, request_id, serve_http,
}

unfoldable pub has_dash : String → Bool
has_dash String.[] = false
has_dash (String.◌∷◌ c s) = code c == 45 || has_dash s

-- What the code relies on of strconv.FormatUint: digits only, and different ones for different numbers.
pub record IsDecimal (format : ℕ → String) : Type 0 where
  pub digits : (n : ℕ) → has_dash (format n) ≡ false
  pub differs : (m n : ℕ) → format m ≡ format n → m ≡ n

rest_of : String → String
rest_of String.[] = String.[]
rest_of (String.◌∷◌ c s) = s

has_dash-append : (s t : String) → has_dash (s ++ String.◌∷◌ "-" t) ≡ true
unfolding has_dash
has_dash-append String.[] t = rw (append.nil (String.◌∷◌ "-" t)) refl
has_dash-append (String.◌∷◌ c s) t =
    rw (append.cons c s (String.◌∷◌ "-" t)) (ground (arith, has_dash-append s t))

dash_absent : (s x t : String) → has_dash x ≡ false → ¬ (x ≡ s ++ String.◌∷◌ "-" t)
dash_absent s x t none_in h =
    let both : false ≡ true = sym none_in ∙ ap has_dash h ∙ has_dash-append s t in
    ground (arith, both)

-- The text after the last dash.
after_dash :
    (a b x y : String)
    → has_dash x ≡ false
    → has_dash y ≡ false
    → a ++ String.◌∷◌ "-" x ≡ b ++ String.◌∷◌ "-" y
    → x ≡ y
unfolding rest_of
after_dash String.[] String.[] x y hx hy h =
    ap rest_of (sym (append.nil (String.◌∷◌ "-" x)) ∙ h ∙ append.nil (String.◌∷◌ "-" y))
after_dash String.[] (String.◌∷◌ d b) x y hx hy h = absurd (
    dash_absent b x y hx
      (ap rest_of (sym (append.nil (String.◌∷◌ "-" x)) ∙ h ∙ append.cons d b (String.◌∷◌ "-" y))))
after_dash (String.◌∷◌ c a) String.[] x y hx hy h = absurd (
    dash_absent a y x hy (
      ap rest_of
        (sym (append.nil (String.◌∷◌ "-" y)) ∙ sym h ∙ append.cons c a (String.◌∷◌ "-" x))))
after_dash (String.◌∷◌ c a) (String.◌∷◌ d b) x y hx hy h =
    after_dash a b x y hx hy (
      ap rest_of
        (sym (append.cons c a (String.◌∷◌ "-" x)) ∙ h ∙ append.cons d b (String.◌∷◌ "-" y)))

-- Requests one after the other.
unfoldable pub serve_requests :
    Gin → (String → Option String) → Config → Strconv → List (Env × Incoming) → AppState → AppState
unfolding serve_http
serve_requests gin parse_address cfg strconv [] a = a
serve_requests gin parse_address cfg strconv ((env, r) ∷ requests) a =
    serve_requests gin parse_address cfg strconv requests
      (serve_http gin parse_address cfg strconv r env a).1

module _ (gin : Gin) (parse_address : String → Option String) (cfg : Config)
    (strconv : Strconv) where
  sequence_after :
      (r : Incoming) (env : Env) (a : AppState)
      → (k : ℕ) × (k ≤ 1)
        × ((serve_http gin parse_address cfg strconv r env a).1.request_sequence % 2 ^ 64
            ≡ (a.request_sequence + k) % 2 ^ 64)
  unfolding serve_http request_id
  sequence_after r env a = elim (Bool-cases (gin.redirects r.method r.path)) [
    | inl away ↦ rw away (0, ground arith, ground arith)
    | inr here ↦ elim (Bool-cases (is_empty (trim_space r.request_id))) [
      | inl absent ↦ rw (here, absent) (1, ground arith, ground arith)
      | inr present ↦ rw (here, present) (0, ground arith, ground arith)
    ]
  ]

  sequences_after :
      (requests : List (Env × Incoming)) (a : AppState)
      → (k : ℕ) × (k ≤ length requests)
        × ((serve_requests gin parse_address cfg strconv requests a).request_sequence % 2 ^ 64
            ≡ (a.request_sequence + k) % 2 ^ 64)
  unfolding serve_requests
  sequences_after [] a = (0, ground arith, ground arith)
  sequences_after ((env, r) ∷ requests) a =
      let (k, few, same) = sequence_after r env a in
      let (l, fewer, rest) =
        sequences_after requests (serve_http gin parse_address cfg strconv r env a).1 in
      (k + l, ground (arith, few, fewer), ground (arith, same, rest))

  made_id :
      (r : Incoming) (env : Env) (a : AppState) (id : String) (reply : Option HttpReply)
      → is_empty (trim_space r.request_id) ≡ true
      → (serve_http gin parse_address cfg strconv r env a).0 ≡ Answer.answered id reply
      → (id
          ≡ strconv.format_int r.unix_nano
            ++ "-"
            ++ strconv.format_uint (next_sequence a.request_sequence))
        × ((serve_http gin parse_address cfg strconv r env a).1.request_sequence
            ≡ next_sequence a.request_sequence)
  unfolding serve_http request_id
  made_id r env a id reply absent h = elim (Bool-cases (gin.redirects r.method r.path)) [
    | inl away ↦ ground (arith, away, h)
    | inr here ↦ (ground (arith, here, absent, h), rw (here, absent) refl)
  ]

  -- Two requests without an identifier of their own, with fewer than 2^64 - 1 requests between them, are
  -- answered with different identifiers, whatever the clock says; FormatUint writes digits only, and
  -- different ones for different numbers.
  pub request_ids_differ :
      IsDecimal strconv.format_uint
      → (r r' : Incoming) (env env' : Env) (a : AppState) (between : List (Env × Incoming))
      → is_empty (trim_space r.request_id) ≡ true
      → is_empty (trim_space r'.request_id) ≡ true
      → length between < 2 ^ 64 - 1
      → (id id' : String) (reply reply' : Option HttpReply)
      → let (answer, a₁) = serve_http gin parse_address cfg strconv r env a in
        let a₂ = serve_requests gin parse_address cfg strconv between a₁ in
        answer ≡ Answer.answered id reply
        → (serve_http gin parse_address cfg strconv r' env' a₂).0 ≡ Answer.answered id' reply'
        → ¬ (id ≡ id')
  request_ids_differ decimal r r' env env' a between absent absent' few id id' reply reply' h h'
        same =
      let a₁ = (serve_http gin parse_address cfg strconv r env a).1 in
      let a₂ = serve_requests gin parse_address cfg strconv between a₁ in
      let (made, stands) = made_id r env a id reply absent h in
      let (made', _) = made_id r' env' a₂ id' reply' absent' h' in
      let (k, moved, at) = sequences_after between a₁ in
      let one = next_sequence a.request_sequence in
      let two = next_sequence a₂.request_sequence in
      let numbers : one ≡ two = decimal.differs one two (
        after_dash (strconv.format_int r.unix_nano) (strconv.format_int r'.unix_nano)
          (strconv.format_uint one) (strconv.format_uint two) (decimal.digits one)
          (decimal.digits two)
          (dashed (strconv.format_int r.unix_nano) (strconv.format_uint one)
            ∙ sym made
            ∙ same
            ∙ made'
            ∙ sym (dashed (strconv.format_int r'.unix_nano) (strconv.format_uint two)))) in
      ground (arith, numbers, stands, at, moved, few)
    where
      dashed : (s t : String) → s ++ String.◌∷◌ "-" t ≡ s ++ "-" ++ t
      dashed s t =
          ap (λ u. s ++ u) (sym (append.cons "-" "" t ∙ ap (λ u. String.◌∷◌ "-" u) (append.nil t)))
