-- ===== src/Tests/Routes.antt =====
-- Requests to the router, with identifiers of their own and without.
use order_sync.Base.{
  find_row, ℕ, zero, suc, sym, ◌≤◌, ◌^◌, ◌-◌, String, false, Option, none, some, [], ◌∷◌, ◌≡◌, refl,
  ap, arith, text_eq, trim_space, is_empty,
}
use order_sync.App.Answers.{answers_sound}
use order_sync.App.RequestIds.{has_dash, IsDecimal, serve_requests, request_ids_differ}
use order_sync.App.Router.{HttpReply, Decoded, Extra, health_reply}
use order_sync.App.Routes.{
  Gin, Strconv, Incoming, AppState, Answer, request_id, handle_route, serve_http,
}
use order_sync.Tests.Data.{cfg, env_at, env_failing, empty_db, shop_webhook, paid_webhook}

-- A pattern matches its own text, and no path is redirected.
abbrev gin : Gin
gin = record { matches = text_eq; order_id = λ path. path; redirects = λ method path. false }

strokes : ℕ → String
strokes zero = ""
strokes (suc n) = String.◌∷◌ "I" (strokes n)

strokes-has_dash : (n : ℕ) → has_dash (strokes n) ≡ false
unfolding strokes has_dash
strokes-has_dash zero = refl
strokes-has_dash (suc n) = strokes-has_dash n

count : String → ℕ
count String.[] = 0
count (String.◌∷◌ c s) = suc (count s)

count-strokes : (n : ℕ) → count (strokes n) ≡ n
unfolding strokes count
count-strokes zero = refl
count-strokes (suc n) = ap suc (count-strokes n)

abbrev strconv : Strconv
strconv = record { format_int = strokes; format_uint = strokes }

strokes-IsDecimal : IsDecimal strokes
strokes-IsDecimal = record {
  digits = strokes-has_dash;
  differs = λ m n h. rw (sym (count-strokes m), sym (count-strokes n)) (ap count h);
}

abbrev request_to : String → String → String → Incoming
request_to method path request_id = record {
  method = method;
  path = path;
  request_id = request_id;
  unix_nano = 1;
  shop = record {
    secret = "";
    media_type = some "application/json";
    first = Decoded.value shop_webhook;
    extra = Extra.end_of_input;
  };
  payment = record {
    secret = "";
    media_type = none;
    first = Decoded.value paid_webhook;
    extra = Extra.end_of_input;
  };
  ping = false;
}

abbrev state : AppState
state = record { db = empty_db; request_sequence = 2 ^ 64 - 1 }

abbrev parse_address : String → Option String
parse_address s = some s

answers_sound_example :
    let r = request_to "POST" "/api/webhooks/shop" " from-client " in
    let (answer, a') = serve_http gin parse_address cfg strconv r (env_failing 3) state in
    ((id : String) (reply : HttpReply)
      → answer ≡ Answer.answered id (some reply)
      → 400 ≤ reply.code
      → a'.db.tables ≡ state.db.tables)
    × (text_eq r.method "POST" ≡ false → a'.db.tables ≡ state.db.tables)
    × ((id : String) (reply : Option HttpReply)
        → answer ≡ Answer.answered id reply
        → (is_empty id ≡ false)
          × (is_empty (trim_space r.request_id) ≡ false → id ≡ trim_space r.request_id))
answers_sound_example =
    answers_sound gin strconv parse_address cfg
      (request_to "POST" "/api/webhooks/shop" " from-client ") (env_failing 3) state

abbrev health : Incoming
health = request_to "GET" "/health" " "

abbrev unknown : Incoming
unknown = request_to "GET" "/nothing" ""

abbrev first_id : String
first_id = "I-"

abbrev second_id : String
second_id = "I-I"

request_ids_differ_example : ¬ (first_id ≡ second_id)
unfolding trim_space is_empty serve_http serve_requests request_id handle_route strokes find_row
    text_eq
request_ids_differ_example =
    request_ids_differ gin parse_address cfg strconv strokes-IsDecimal health unknown (env_at 1)
      (env_at 2) state ((env_at 1, request_to "GET" "/health" "mine") ∷ []) refl refl (ground arith)
      first_id second_id (some (health_reply false)) none refl refl
