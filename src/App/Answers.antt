-- ===== src/App/Answers.antt =====
-- Every request to the router of internal/app/router.go: its identifier, and what its answer says of the tables.
use Prim.Native.String.append
use Prim.Native.String.{◌++◌}
use order_sync.Base.{
  ℕ, Char, ◌≤◌, String, Bool, true, false, Option, none, some, List, [], ◌∷◌, ◌≡◌, refl, subst,
  arith, text_eq, text_eq→eq, trim_space, is_empty, find_row, find_row_test, Bool-cases, inl, inr,
}
use order_sync.Config.{Config}
use order_sync.Orders.{get_order_status}
use order_sync.Postgres.Repositories.Orders as OrderRepository
use order_sync.Postgres.Schema.{Db, Env}
use order_sync.Postgres.Silent.{reads-IsSilent}
use order_sync.App.Replies.{rejected_changes_nothing}
use order_sync.App.Router.{HttpReply, order_status}
use order_sync.App.Routes.{
  Handler, Route, routes, Gin, Strconv, Incoming, AppState, Answer, next_sequence, request_id,
  handle_route, handle_found, is_route, serve_http,
}

-- A row that passes a test holds for every row does so when it is found.
AllRoutes : (Route → Type 0) → List Route → Type 0
AllRoutes P [] = Unit {0}
AllRoutes P (r ∷ rs) = P r × AllRoutes P rs

found_route :
    (P : Route → Type 0) (p : Route → Bool) (rs : List Route) (r : Route)
    → AllRoutes P rs
    → find_row p rs ≡ some r
    → P r
unfolding AllRoutes find_row
found_route P p [] r all h = ground arith
found_route P p (x ∷ xs) r (holds, all) h = elim (Bool-cases (p x)) [
  | inl first ↦ subst P (cc (first, h)) holds
  | inr later ↦ found_route P p xs r all (ground (arith, later, h))
]

rejected_code :
    (sent reply : HttpReply) → some sent ≡ some reply → 400 ≤ reply.code → 400 ≤ sent.code
rejected_code sent reply same rejected =
    let equal : reply ≡ sent = cc same in subst (λ (x : HttpReply). 400 ≤ x.code) equal rejected

order_status-keeps :
    (order_id : String) (env : Env) (s : Db) → (order_status order_id env s).1.tables ≡ s.tables
unfolding order_status get_order_status OrderRepository.find_status_of
order_status-keeps order_id env s = (reads-IsSilent _ _).keeps env s

is_webhook : Handler → Bool
is_webhook Handler.shop = true
is_webhook Handler.payment = true
is_webhook _ = false

module _ (gin : Gin) (parse_address : String → Option String) (cfg : Config) where
  read_route-keeps :
      (handler : Handler) (r : Incoming) (env : Env) (s : Db)
      → is_webhook handler ≡ false
      → (handle_route gin parse_address cfg handler r env s).1.tables ≡ s.tables
  unfolding handle_route is_webhook
  read_route-keeps Handler.health r env s h = refl
  read_route-keeps Handler.swagger r env s h = refl
  read_route-keeps Handler.shop r env s h = ground arith
  read_route-keeps Handler.payment r env s h = ground arith
  read_route-keeps Handler.order r env s h = order_status-keeps (gin.order_id r.path) env s

  handle_route-rejects :
      (handler : Handler) (r : Incoming) (env : Env) (s : Db) (reply : HttpReply)
      → (handle_route gin parse_address cfg handler r env s).0 ≡ some reply
      → 400 ≤ reply.code
      → (handle_route gin parse_address cfg handler r env s).1.tables ≡ s.tables
  unfolding handle_route
  handle_route-rejects Handler.health r env s reply h rejected = refl
  handle_route-rejects Handler.swagger r env s reply h rejected = refl
  handle_route-rejects Handler.shop r env s reply h rejected =
      (rejected_changes_nothing parse_address cfg env s).0 r.shop (rejected_code _ reply h rejected)
  handle_route-rejects Handler.payment r env s reply h rejected =
      (rejected_changes_nothing parse_address cfg env s).1 r.payment
        (rejected_code _ reply h rejected)
  handle_route-rejects Handler.order r env s reply h rejected =
      order_status-keeps (gin.order_id r.path) env s

-- The identifier that requestIDMiddleware gives is not empty, and is the trimmed one of the request where that
-- has one.
is_empty-append : (s t : String) → is_empty t ≡ false → is_empty (s ++ t) ≡ false
unfolding is_empty
is_empty-append String.[] t h = rw (append.nil t) h
is_empty-append (String.◌∷◌ c s) t h = rw (append.cons c s t) refl

is_empty-cons : (c : Char) (s t : String) → is_empty (String.◌∷◌ c s ++ t) ≡ false
unfolding is_empty
is_empty-cons c s t = rw (append.cons c s t) refl

request_id_given :
    (strconv : Strconv) (r : Incoming) (n : ℕ)
    → (is_empty (request_id strconv r n).0 ≡ false)
      × (is_empty (trim_space r.request_id) ≡ false
          → (request_id strconv r n).0 ≡ trim_space r.request_id)
unfolding request_id
request_id_given strconv r n = elim (Bool-cases (is_empty (trim_space r.request_id))) [
  | inl absent ↦ (
    rw absent (
        is_empty-append (strconv.format_int r.unix_nano)
          ("-" ++ strconv.format_uint (next_sequence n))
          (is_empty-cons "-" "" (strconv.format_uint (next_sequence n)))),
    λ h. ground (arith, absent, h),
  )
  | inr present ↦ (ground (arith, present), λ h. ground (arith, present))
]

-- A webhook's route is registered for POST.
IsPosted : Route → Type 0
IsPosted route = is_webhook route.handler ≡ true → text_eq route.method "POST" ≡ true

routes-IsPosted : AllRoutes IsPosted routes
unfolding AllRoutes IsPosted is_webhook text_eq
routes-IsPosted =
    (λ h. ground arith, (λ h. ground arith, (λ h. refl, (λ h. refl, (λ h. ground arith, tt)))))

module _ (gin : Gin) (parse_address : String → Option String) (cfg : Config) (r : Incoming)
    (env : Env) (s : Db) where
  handle_found-rejects :
      (found : Option Route) (reply : HttpReply)
      → (handle_found gin parse_address cfg found r env s).0 ≡ some reply
      → 400 ≤ reply.code
      → (handle_found gin parse_address cfg found r env s).1.tables ≡ s.tables
  handle_found-rejects none reply h rejected = refl
  handle_found-rejects (some route) reply h rejected =
      handle_route-rejects gin parse_address cfg route.handler r env s reply h rejected

  handle_found-reads :
      (found : Option Route)
      → find_row (is_route gin r) routes ≡ found
      → text_eq r.method "POST" ≡ false
      → (handle_found gin parse_address cfg found r env s).1.tables ≡ s.tables
  unfolding IsPosted
  handle_found-reads none h reads = refl
  handle_found-reads (some route) h reads = elim (Bool-cases (is_webhook route.handler)) [
    | inl posted ↦
        let test = find_row_test (is_route gin r) routes route h in
        let method : route.method ≡ r.method =
          text_eq→eq route.method r.method (ground (arith, test)) in
        let by_post = found_route IsPosted (is_route gin r) routes route routes-IsPosted h posted in
        let same : text_eq r.method "POST" ≡ true =
          subst (λ m. text_eq m "POST" ≡ true) method by_post in
        ground (arith, same, reads)
    | inr reading ↦ read_route-keeps gin parse_address cfg route.handler r env s reading
  ]

answered-id :
    {i j : String} {o p : Option HttpReply} → Answer.answered i o ≡ Answer.answered j p → i ≡ j
answered-id h = cc h

-- Every request to the router, whatever route gin finds for it: an answer by one of its handlers with a code of
-- 400 or more has changed no table, and only a POST can change one; the identifier in an answer is never empty,
-- and is the request's own, trimmed, where it has one.
pub answers_sound :
    (gin : Gin) (strconv : Strconv) (parse_address : String → Option String) (cfg : Config)
    (r : Incoming) (env : Env) (a : AppState)
    → let (answer, a') = serve_http gin parse_address cfg strconv r env a in
      ((id : String) (reply : HttpReply)
        → answer ≡ Answer.answered id (some reply)
        → 400 ≤ reply.code
        → a'.db.tables ≡ a.db.tables)
      × (text_eq r.method "POST" ≡ false → a'.db.tables ≡ a.db.tables)
      × ((id : String) (reply : Option HttpReply)
          → answer ≡ Answer.answered id reply
          → (is_empty id ≡ false)
            × (is_empty (trim_space r.request_id) ≡ false → id ≡ trim_space r.request_id))
unfolding serve_http
answers_sound gin strconv parse_address cfg r env a =
    let found = find_row (is_route gin r) routes in
    elim (Bool-cases (gin.redirects r.method r.path)) [
      | inl away ↦ rw away (λ id reply h rejected. refl, λ reads. refl, λ id reply h. cc)
      | inr here ↦ rw here (
        λ id reply h rejected.
            handle_found-rejects gin parse_address cfg r env a.db found reply (cc h) rejected,
        handle_found-reads gin parse_address cfg r env a.db found refl,
        λ id reply h.
            subst
              (λ i.
                (is_empty i ≡ false)
                × (is_empty (trim_space r.request_id) ≡ false → i ≡ trim_space r.request_id))
              (answered-id h) (request_id_given strconv r a.request_sequence),
      )
    ]
