-- ===== src/Sap/Inflight.antt =====
-- http_client.go: SyncOrder and the table of the calls in flight. A `*syncOrderCall` is the number of
-- the call, and what the pointer leads to is kept in the client. Each function is what one caller does
-- while it holds the mutex.
use order_sync.Base.{
  ℕ, suc, String, Bool, false, Option, none, some, List, ◌∷◌, find_row, filter_rows, not, text_eq,
  ◌==◌, is_empty, if◌then◌else◌,
}
use order_sync.Worker.Deliver.{SapReply}
use order_sync.Sap.Response.{wrap_error}

-- syncOrderCall, but for what is set when `done` is closed.
pub record SyncOrderCall : Type 0 where
  pub id : ℕ
  pub body : String

-- An entry of the map `inflight`.
pub record Entry : Type 0 where
  pub key : String
  pub call : SyncOrderCall

abbrev pub has_key : String → Entry → Bool
has_key key e = text_eq e.key key

-- `sapID` and `err` of a call whose `done` is closed.
pub record Done : Type 0 where
  pub call : ℕ
  pub reply : SapReply

-- The map, the calls that are done, and the number of calls made.
pub record HttpClient : Type 0 where
  pub inflight : List Entry
  pub done : List Done
  pub next : ℕ

pub data Started : Type 0 where
  owner : SyncOrderCall → Started
  joined : SyncOrderCall → Started
  refused : SapReply → Started

abbrev pub new_call : ℕ → String → SyncOrderCall
new_call id body = record { id = id; body = body }

abbrev pub start_with : String → String → HttpClient → Option Entry → Started × HttpClient
start_with key body c none =
    let call = new_call c.next body in
    (
      Started.owner call,
      record c { inflight = record { key = key; call = call } ∷ c.inflight; next = suc c.next },
    )
start_with key body c (some e) = if text_eq e.call.body body then (Started.joined e.call, c) else (
  Started.refused (wrap_error "SAP idempotency key %q reused with a different order payload" false),
  c,
)

-- startCall.
unfoldable pub start_call : String → String → HttpClient → Started × HttpClient
start_call key body c = start_with key body c (find_row (has_key key) c.inflight)

-- SyncOrder up to startCall, for the body that json.Marshal gives, if it gives one.
unfoldable pub begin_sync : String → Option String → HttpClient → Started × HttpClient
unfolding start_call
begin_sync key none c = (
  Started.refused (
      if is_empty key
      then wrap_error "SAP idempotency key is empty" false
      else wrap_error "marshal SAP order %q: %w" false),
  c,
)
begin_sync key (some body) c =
    if is_empty key
    then (Started.refused (wrap_error "SAP idempotency key is empty" false), c)
    else start_call key body c

-- The deferred function of the owner.
unfoldable pub finish_call : Entry → SapReply → HttpClient → HttpClient
finish_call e reply c = record c {
  done = record { call = e.call.id; reply = reply } ∷ c.done;
  inflight = filter_rows (λ other. not (has_key e.key other)) c.inflight;
}

-- `case <-call.done`: what a caller that joined the call returns, once it is done.
unfoldable pub await_call : SyncOrderCall → HttpClient → Option SapReply
await_call call c = elim (find_row (λ (d : Done). d.call == call.id) c.done) [
  | none ↦ none
  | some d ↦ some d.reply
]
