-- ===== src/Sap/Callers.antt =====
-- However the callers of SyncOrder interleave: http_client.go sends one request at a time for a key.
use order_sync.Base.{
  String, Bool, true, false, not, Option, none, some, List, [], ◌∷◌, ◌++◌, ◌≡◌, refl, sym, ap,
  subst, arith, find_row, filter_rows, text_eq, text_eq_refl, text_eq→eq, Option-cases, Bool-cases,
  inl, inr, find_row_test, ◌∙◌,
}
use order_sync.Worker.Deliver.{SapReply}
use order_sync.Sap.Inflight.{
  SyncOrderCall, Entry, HttpClient, Started, has_key, start_call, begin_sync, finish_call,
  await_call,
}
use order_sync.Sap.Interleaving.{System, ◌⟶◌, Reachable}

-- No two entries have the same key.
abbrev pub Distinct : List Entry → Type 0
Distinct [] = Unit {0}
Distinct (e ∷ es) = (find_row (has_key e.key) es ≡ none) × Distinct es

none-append :
    (p : Entry → Bool) (before : List Entry) (e : Entry) (after : List Entry)
    → find_row p (before ++ e ∷ after) ≡ none
    → (p e ≡ false) × (find_row p (before ++ after) ≡ none)
unfolding find_row
none-append p [] e after h = (ground arith, ground arith)
none-append p (b ∷ bs) e after h =
    let (later, rest) = none-append p bs e after (ground arith) in (later, ground (arith, rest))

filter_rows-none :
    (key : String) (es : List Entry)
    → find_row (has_key key) es ≡ none
    → filter_rows (λ e. not (has_key key e)) es ≡ es
unfolding find_row filter_rows
filter_rows-none key [] h = refl
filter_rows-none key (e ∷ es) h = ground (arith, filter_rows-none key es)

other_key : (key : String) (b : Entry) → text_eq key b.key ≡ false → text_eq b.key key ≡ false
other_key key b h = elim (Bool-cases (text_eq b.key key)) [
  | inl same ↦ ground (arith, text_eq-sym same, h)
  | inr differ ↦ differ
]
  where
    text_eq-sym : text_eq b.key key ≡ true → text_eq key b.key ≡ true
    text_eq-sym same = rw (text_eq→eq b.key key same) (text_eq_refl key)

-- Deleting the key of one entry leaves the others.
remove-Distinct :
    (before : List Entry) (e : Entry) (after : List Entry)
    → Distinct (before ++ e ∷ after)
    → (filter_rows (λ o. not (has_key e.key o)) (before ++ e ∷ after) ≡ before ++ after)
      × Distinct (before ++ after)
unfolding filter_rows
remove-Distinct [] e after (fresh, rest) =
    (rw (text_eq_refl e.key) (filter_rows-none e.key after fresh), rest)
remove-Distinct (b ∷ bs) e after (fresh, rest) =
    let (differ, fresh') = none-append (has_key b.key) bs e after fresh in
    let (same, distinct) = remove-Distinct bs e after rest in
    (rw (other_key e.key b differ) (ap (λ l. b ∷ l) same), (fresh', distinct))

module _ (key : String) (c : HttpClient) where
  pub begin_sync-owner :
      (body : Option String) (call : SyncOrderCall)
      → (begin_sync key body c).0 ≡ Started.owner call
      → (find_row (has_key key) c.inflight ≡ none)
        × ((begin_sync key body c).1.inflight ≡ record { key = key; call = call } ∷ c.inflight)
  unfolding begin_sync start_call
  begin_sync-owner none call h = ground arith
  begin_sync-owner (some body) call h = elim (Option-cases (find_row (has_key key) c.inflight)) [
    | inl free ↦ (free, ground arith)
    | inr (e, taken) ↦ ground arith
  ]

  pub begin_sync-refused :
      (body : Option String) (reply : SapReply)
      → (begin_sync key body c).0 ≡ Started.refused reply
      → (begin_sync key body c).1 ≡ c
  unfolding begin_sync start_call
  begin_sync-refused none reply h = refl
  begin_sync-refused (some body) reply h = elim (Option-cases (find_row (has_key key) c.inflight)) [
    | inl free ↦ ground arith
    | inr (e, taken) ↦ ground arith
  ]

  pub begin_sync-joined :
      (body : Option String) (call : SyncOrderCall)
      → (begin_sync key body c).0 ≡ Started.joined call
      → ((begin_sync key body c).1 ≡ c)
        × (body ≡ some call.body)
        × ((e : Entry) × (find_row (has_key key) c.inflight ≡ some e) × (e.call ≡ call))
  unfolding begin_sync start_call
  begin_sync-joined none call h = ground arith
  begin_sync-joined (some body) call h = elim (Option-cases (find_row (has_key key) c.inflight)) [
    | inl free ↦ ground arith
    | inr (e, taken) ↦
        (ground arith, ground (arith, text_eq→eq e.call.body body), (e, taken, ground arith))
  ]

pub record IsConsistent (s : System) : Type 0 where
  pub tracked : s.client.inflight ≡ s.posting
  pub distinct : Distinct s.client.inflight

step-IsConsistent : (s s' : System) → s ⟶ s' → IsConsistent s → IsConsistent s'
unfolding finish_call
step-IsConsistent s s' (◌⟶◌.owns _ key body call h) c =
    let (free, same) = begin_sync-owner key s.client body call h in
    record {
      tracked = same ∙ ap (λ l. record { key = key; call = call } ∷ l) c.tracked;
      distinct = rw same (free, c.distinct);
    }
step-IsConsistent s s' (◌⟶◌.joins _ key body call h) c =
    let (same, _, _) = begin_sync-joined key s.client body call h in
    record { tracked = rw same c.tracked; distinct = rw same c.distinct }
step-IsConsistent s s' (◌⟶◌.refuses _ key body reply h) c =
    rw ((begin_sync-refused key s.client body reply h)) c
step-IsConsistent s s' (◌⟶◌.takes_reply _ before w after reply h done) c = record {
  tracked = c.tracked;
  distinct = c.distinct;
}
step-IsConsistent s s' (◌⟶◌.gives_up _ before w after h) c = record {
  tracked = c.tracked;
  distinct = c.distinct;
}
step-IsConsistent s s' (◌⟶◌.finishes _ before e after reply h) c =
    let all = subst Distinct (c.tracked ∙ h) c.distinct in
    let (same, distinct) = remove-Distinct before e after all in
    record { tracked = rw (c.tracked ∙ h) same; distinct = rw (c.tracked ∙ h) (rw same distinct) }

pub Reachable-IsConsistent : (s : System) → Reachable s → IsConsistent s
Reachable-IsConsistent s Reachable.start = record { tracked = refl; distinct = tt }
Reachable-IsConsistent s (Reachable.step r _ before moves) =
    step-IsConsistent r s moves (Reachable-IsConsistent r before)

alone :
    (before : List Entry) (e : Entry) (after : List Entry)
    → Distinct (before ++ e ∷ after)
    → find_row (has_key e.key) (before ++ after) ≡ none
unfolding find_row
alone [] e after (fresh, rest) = fresh
alone (b ∷ bs) e after (fresh, rest) =
    let (differ, _) = none-append (has_key b.key) bs e after fresh in
    rw (other_key e.key b differ) (alone bs e after rest)

-- However many callers there are and however they interleave: of the requests under way no two have the
-- same idempotency key, and the table of the calls in flight holds exactly these requests.
pub one_request_per_key :
    (s : System)
    → Reachable s
    → (before : List Entry) (e : Entry) (after : List Entry) → s.posting ≡ before ++ e ∷ after
    → (find_row (has_key e.key) (before ++ after) ≡ none) × (s.client.inflight ≡ s.posting)
one_request_per_key s r before e after h =
    let c = Reachable-IsConsistent s r in
    (alone before e after (subst Distinct (c.tracked ∙ h) c.distinct), c.tracked)

pub joined_call-posting :
    (s : System) (key : String) (body : Option String) (call : SyncOrderCall)
    → IsConsistent s
    → (begin_sync key body s.client).0 ≡ Started.joined call
    → find_row (has_key key) s.posting ≡ some (record { key = key; call = call })
joined_call-posting s key body call c h =
    let (_, _, (e, found, same)) = begin_sync-joined key s.client body call h in
    let key_same = text_eq→eq e.key key (find_row_test (has_key key) s.client.inflight e found) in
    sym (ap (find_row (has_key key)) c.tracked) ∙ found ∙ ap some (cc (key_same, same))

-- However the callers interleave: one that joins a call has the same body as the call, the request of the
-- call is under way for its key, and when its owner finishes with a reply the one that joined is given
-- that reply.
pub joined_gets_reply :
    (s : System)
    → Reachable s
    → (key : String) (body : Option String) (call : SyncOrderCall)
    → (begin_sync key body s.client).0 ≡ Started.joined call
    → (reply : SapReply)
    → (body ≡ some call.body)
      × (find_row (has_key key) s.posting ≡ some (record { key = key; call = call }))
      × (await_call call (finish_call (record { key = key; call = call }) reply s.client)
          ≡ some reply)
unfolding await_call finish_call find_row
joined_gets_reply s r key body call h reply =
    let c = Reachable-IsConsistent s r in
    let (_, same_body, _) = begin_sync-joined key s.client body call h in
    (same_body, joined_call-posting s key body call c h, ground arith)
