-- ===== src/Sap/Interleaving.antt =====
-- Any number of callers of SyncOrder of http_client.go at once, as steps of one client.
use order_sync.Base.{String, Option, some, List, [], ◌∷◌, ◌++◌, ◌≡◌}
use order_sync.Worker.Deliver.{SapReply}
use order_sync.Sap.Inflight.{
  SyncOrderCall, Entry, HttpClient, Started, begin_sync, finish_call, await_call,
}

-- The client, the owners that are in `postOrder`, each with a request to SAP under way, and the callers that
-- joined a call and wait in the `select`.
pub record System : Type 0 where
  pub client : HttpClient
  pub posting : List Entry
  pub waiting : List Entry

-- A caller begins, and owns a new call, joins one, or is refused; an owner's request is answered; or one that
-- waits takes the reply of its call, or its context is done.
infix 20 ◌⟶◌
pub data ◌⟶◌ : System → System → Type 0 where
  owns :
      (s : System) (key : String) (body : Option String) (call : SyncOrderCall)
      → (begin_sync key body s.client).0 ≡ Started.owner call
      → s ⟶ record {
        client = (begin_sync key body s.client).1;
        posting = record { key = key; call = call } ∷ s.posting;
        waiting = s.waiting;
      }
  joins :
      (s : System) (key : String) (body : Option String) (call : SyncOrderCall)
      → (begin_sync key body s.client).0 ≡ Started.joined call
      → s ⟶ record s {
        client = (begin_sync key body s.client).1;
        waiting = record { key = key; call = call } ∷ s.waiting;
      }
  refuses :
      (s : System) (key : String) (body : Option String) (reply : SapReply)
      → (begin_sync key body s.client).0 ≡ Started.refused reply
      → s ⟶ record s { client = (begin_sync key body s.client).1 }
  finishes :
      (s : System) (before : List Entry) (e : Entry) (after : List Entry) (reply : SapReply)
      → s.posting ≡ before ++ e ∷ after
      → s ⟶ record s { client = finish_call e reply s.client; posting = before ++ after }
  takes_reply :
      (s : System) (before : List Entry) (w : Entry) (after : List Entry) (reply : SapReply)
      → s.waiting ≡ before ++ w ∷ after
      → await_call w.call s.client ≡ some reply
      → s ⟶ record s { waiting = before ++ after }
  gives_up :
      (s : System) (before : List Entry) (w : Entry) (after : List Entry)
      → s.waiting ≡ before ++ w ∷ after
      → s ⟶ record s { waiting = before ++ after }

-- NewClient.
abbrev pub new_client : System
new_client = record {
  client = record { inflight = []; done = []; next = 0 };
  posting = [];
  waiting = [];
}

pub data Reachable : System → Type 0 where
  start : Reachable new_client
  step : (s s' : System) → Reachable s → s ⟶ s' → Reachable s'
