-- ===== src/Sap/Waiters.antt =====
-- The callers of SyncOrder of http_client.go that joined a call: what they wait for.
use order_sync.Base.{
  String, Bool, Option, none, some, List, [], ◌∷◌, ◌++◌, ◌≡◌, refl, sym, ap, subst, arith, find_row,
  text_eq, text_eq→eq, ◌==◌, ◌⊎◌, inl, inr, Bool-cases, Option-cases, ◌∙◌,
}
use order_sync.Worker.Deliver.{SapReply}
use order_sync.Sap.Inflight.{
  SyncOrderCall, Entry, HttpClient, Started, has_key, start_call, begin_sync, finish_call,
  await_call,
}
use order_sync.Sap.Interleaving.{System, ◌⟶◌, Reachable}
use order_sync.Sap.Callers.{
  begin_sync-owner, begin_sync-joined, begin_sync-refused, joined_call-posting, IsConsistent,
  Reachable-IsConsistent,
}

-- The request of the call is under way, or the call is done with a reply.
abbrev pub IsServed : HttpClient → List Entry → Entry → Type 0
IsServed c posting w =
    (find_row (has_key w.key) posting ≡ some w)
    ⊎ ((reply : SapReply) × (await_call w.call c ≡ some reply))

abbrev AllServed : HttpClient → List Entry → List Entry → Type 0
AllServed c posting [] = Unit {0}
AllServed c posting (w ∷ ws) = IsServed c posting w × AllServed c posting ws

module _ (c : HttpClient) (posting : List Entry) where
  drop_one :
      (before : List Entry) (w : Entry) (after : List Entry)
      → AllServed c posting (before ++ w ∷ after)
      → AllServed c posting (before ++ after)
  drop_one [] w after (served, rest) = rest
  drop_one (b ∷ bs) w after (served, rest) = (served, drop_one bs w after rest)

  pick_one :
      (before : List Entry) (w : Entry) (after : List Entry)
      → AllServed c posting (before ++ w ∷ after)
      → IsServed c posting w
  pick_one [] w after (served, rest) = served
  pick_one (b ∷ bs) w after (served, rest) = pick_one bs w after rest

  every_one :
      (c' : HttpClient) (posting' : List Entry)
      → ((w : Entry) → IsServed c posting w → IsServed c' posting' w)
      → (ws : List Entry) → AllServed c posting ws
      → AllServed c' posting' ws
  every_one c' posting' each [] all = tt
  every_one c' posting' each (w ∷ ws) (served, rest) =
      (each w served, every_one c' posting' each ws rest)

-- The entry that is taken out of a list, or still found.
found_without :
    (p : Entry → Bool) (before : List Entry) (e : Entry) (after : List Entry) (w : Entry)
    → find_row p (before ++ e ∷ after) ≡ some w
    → (e ≡ w) ⊎ (find_row p (before ++ after) ≡ some w)
unfolding find_row
found_without p [] e after w h = elim (Bool-cases (p e)) [
  | inl first ↦ inl (ground (arith, first, h))
  | inr later ↦ inr (ground (arith, later, h))
]
found_without p (b ∷ bs) e after w h = elim (Bool-cases (p b)) [
  | inl first ↦ inr (ground (arith, first, h))
  | inr later ↦ elim (found_without p bs e after w (ground (arith, later, h))) [
    | inl same ↦ inl same
    | inr found ↦ inr (ground (arith, later, found))
  ]
]

finish_call-IsServed :
    (c : HttpClient) (before : List Entry) (e : Entry) (after : List Entry) (reply : SapReply)
    (w : Entry)
    → IsServed c (before ++ e ∷ after) w
    → IsServed (finish_call e reply c) (before ++ after) w
unfolding finish_call await_call find_row
finish_call-IsServed c before e after reply w (inl posting) =
    elim (found_without (has_key w.key) before e after w posting) [
      | inl same ↦ inr (reply, ground (arith, ap (λ x. x.call.id) same))
      | inr found ↦ inl found
    ]
finish_call-IsServed c before e after reply w (inr (old, done)) =
    elim (Bool-cases (e.call.id == w.call.id)) [
      | inl same ↦ inr (reply, ground (arith, same))
      | inr other ↦ inr (old, ground (arith, other, done))
    ]

begin_sync-done :
    (key : String) (body : Option String) (c : HttpClient) → (begin_sync key body c).1.done ≡ c.done
unfolding begin_sync start_call
begin_sync-done key none c = refl
begin_sync-done key (some body) c = elim (Option-cases (find_row (has_key key) c.inflight)) [
  | inl free ↦ ground arith
  | inr (e, taken) ↦ ground arith
]

-- A new call has a key of its own.
owns-IsServed :
    (s : System) (key : String) (body : Option String) (call : SyncOrderCall)
    → IsConsistent s
    → (begin_sync key body s.client).0 ≡ Started.owner call
    → (w : Entry) → IsServed s.client s.posting w
    → IsServed (begin_sync key body s.client).1 (record { key = key; call = call } ∷ s.posting) w
unfolding await_call find_row
owns-IsServed s key body call c h w (inl posting) =
    let free = (begin_sync-owner key s.client body call h).0 in
    let unposted : find_row (has_key key) s.posting ≡ none =
      sym (ap (find_row (has_key key)) c.tracked) ∙ free in
    elim (Bool-cases (text_eq key w.key)) [
      | inl same ↦
          let clash : none ≡ some w =
            sym unposted
            ∙ ap (λ k. find_row (has_key k) s.posting) (text_eq→eq key w.key same)
            ∙ posting in
          absurd (cc clash)
      | inr other ↦ inl (rw other posting)
    ]
owns-IsServed s key body call c h w (inr (reply, done)) =
    inr (reply, rw (await_call, begin_sync-done key body s.client) done)

step-AllServed :
    (s s' : System)
    → s ⟶ s'
    → IsConsistent s
    → AllServed s.client s.posting s.waiting
    → AllServed s'.client s'.posting s'.waiting
step-AllServed s s' (◌⟶◌.owns _ key body call h) c all =
    every_one s.client s.posting _ _ (owns-IsServed s key body call c h) s.waiting all
step-AllServed s s' (◌⟶◌.joins _ key body call h) c all =
    let (same, _, _) = begin_sync-joined key s.client body call h in
    subst (λ c'. AllServed c' s.posting (record { key = key; call = call } ∷ s.waiting)) (sym same)
      (inl (joined_call-posting s key body call c h), all)
step-AllServed s s' (◌⟶◌.refuses _ key body reply h) c all =
    rw (begin_sync-refused key s.client body reply h) all
step-AllServed s s' (◌⟶◌.finishes _ before e after reply h) c all =
    every_one s.client (before ++ e ∷ after) _ _
      (finish_call-IsServed s.client before e after reply) s.waiting (rw (sym h) all)
step-AllServed s s' (◌⟶◌.takes_reply _ before w after reply h done) c all =
    drop_one s.client s.posting before w after (subst (AllServed s.client s.posting) h all)
step-AllServed s s' (◌⟶◌.gives_up _ before w after h) c all =
    drop_one s.client s.posting before w after (subst (AllServed s.client s.posting) h all)

Reachable-AllServed : (s : System) → Reachable s → AllServed s.client s.posting s.waiting
Reachable-AllServed s Reachable.start = tt
Reachable-AllServed s (Reachable.step r _ before moves) =
    step-AllServed r s moves (Reachable-IsConsistent r before) (Reachable-AllServed r before)

-- However the callers of SyncOrder interleave, give up or are answered: of a caller that waits for a call that it
-- joined, the request of that call is under way for its key, or the call is done and its reply is there to take.
pub no_caller_stranded :
    (s : System)
    → Reachable s
    → (before : List Entry) (w : Entry) (after : List Entry) → s.waiting ≡ before ++ w ∷ after
    → (find_row (has_key w.key) s.posting ≡ some w)
      ⊎ ((reply : SapReply) × (await_call w.call s.client ≡ some reply))
no_caller_stranded s r before w after h =
    pick_one s.client s.posting before w after
      (subst (AllServed s.client s.posting) h (Reachable-AllServed s r))
