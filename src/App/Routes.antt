-- ===== src/App/Routes.antt =====
-- internal/app/router.go: NewRouter and requestIDMiddleware. gin chooses the route and may answer a request by
-- itself; a panic of a handler, which gin.Recovery turns into a 500, and the log lines are left out.
use Prim.Native.String.{◌++◌}
use order_sync.Base.{
  ℕ, suc, ◌^◌, ◌%◌, String, Bool, ◌&&◌, Option, none, some, List, [], ◌∷◌, text_eq, trim_space,
  is_empty, if◌then◌else◌, find_row,
}
use order_sync.Config.{Config}
use order_sync.Payment.Webhook as PaymentWebhook
use order_sync.Postgres.Schema.{Db, Env}
use order_sync.Shop.Webhook as ShopWebhook
use order_sync.App.Router.{
  HttpReply, HttpRequest, shop_webhook, payment_webhook, order_status, health_reply,
}

pub data Handler : Type 0 where
  health swagger shop payment order : Handler

pub record Route : Type 0 where
  pub method : String
  pub pattern : String
  pub handler : Handler

-- The routes of NewRouter.
abbrev pub routes : List Route
routes =
    (record { method = "GET"; pattern = "/health"; handler = Handler.health })
    ∷ (record { method = "GET"; pattern = "/swagger/*any"; handler = Handler.swagger })
    ∷ (record { method = "POST"; pattern = "/api/webhooks/shop"; handler = Handler.shop })
    ∷ (record { method = "POST"; pattern = "/api/webhooks/payment"; handler = Handler.payment })
    ∷ (record { method = "GET"; pattern = "/api/orders/:orderId"; handler = Handler.order })
    ∷ []

-- What gin does with a path: whether a pattern matches it, its parameter `orderId`, and whether a request for
-- it is redirected before any middleware.
pub record Gin : Type 0 where
  pub matches : String → String → Bool
  pub order_id : String → String
  pub redirects : String → String → Bool

-- strconv.FormatInt and FormatUint in base 10, of what is not negative.
pub record Strconv : Type 0 where
  pub format_int : ℕ → String
  pub format_uint : ℕ → String

-- A request: the body as each webhook's decoder reads it, whether the pool answers a ping, and the clock.
pub record Incoming : Type 0 where
  pub method : String
  pub path : String
  pub request_id : String
  pub unix_nano : ℕ
  pub shop : HttpRequest ShopWebhook.Webhook
  pub payment : HttpRequest PaymentWebhook.Webhook
  pub ping : Bool

-- The process as its requests see it: the database and `requestSequence`.
pub record AppState : Type 0 where
  pub db : Db
  pub request_sequence : ℕ

pub data Answer : Type 0 where
  redirected : Answer
  -- X-Request-ID, and the reply; `none` is one of gin (404) or of the Swagger handler.
  answered : String → Option HttpReply → Answer

-- atomic.AddUint64(&requestSequence, 1)
abbrev pub next_sequence : ℕ → ℕ
next_sequence n = suc n % 2 ^ 64

-- The identifier of a request and the sequence after it.
unfoldable pub request_id : Strconv → Incoming → ℕ → String × ℕ
request_id strconv r sequence =
    let given = trim_space r.request_id in
    if is_empty given
    then (
      strconv.format_int r.unix_nano ++ "-" ++ strconv.format_uint (next_sequence sequence),
      next_sequence sequence,
    )
    else (given, sequence)

abbrev pub is_route : Gin → Incoming → Route → Bool
is_route gin r route = text_eq route.method r.method && gin.matches route.pattern r.path

module _ (gin : Gin) (parse_address : String → Option String) (cfg : Config) where
  -- The handler that NewRouter registers for a route.
  unfoldable pub handle_route : Handler → Incoming → Env → Db → Option HttpReply × Db
  unfolding shop_webhook payment_webhook order_status health_reply
  handle_route Handler.health r env s = (some (health_reply r.ping), s)
  handle_route Handler.swagger r env s = (none, s)
  handle_route Handler.shop r env s =
      let (reply, s') = shop_webhook parse_address cfg r.shop env s in (some reply, s')
  handle_route Handler.payment r env s =
      let (reply, s') = payment_webhook cfg r.payment env s in (some reply, s')
  handle_route Handler.order r env s =
      let (reply, s') = order_status (gin.order_id r.path) env s in (some reply, s')

  -- A request without a route is answered by gin, with the code 404.
  abbrev pub handle_found : Option Route → Incoming → Env → Db → Option HttpReply × Db
  handle_found none r env s = (none, s)
  handle_found (some route) r env s = handle_route route.handler r env s

  -- The router of NewRouter on one request: requestIDMiddleware around the handler of the route.
  unfoldable pub serve_http : Strconv → Incoming → Env → AppState → Answer × AppState
  unfolding request_id handle_route
  serve_http strconv r env a =
      let (id, sequence) = request_id strconv r a.request_sequence in
      let (reply, db) = handle_found (find_row (is_route gin r) routes) r env a.db in
      if gin.redirects r.method r.path
      then (Answer.redirected, a)
      else (Answer.answered id reply, record { db = db; request_sequence = sequence })
