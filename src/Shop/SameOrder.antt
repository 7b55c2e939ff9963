-- ===== src/Shop/SameOrder.antt =====
-- What sameOrderPayload decides: the same customer email and the same items up to their order.
use mathlib.Core.Logic.Or
use mathlib.Core.Logic.{∥∥₁_elim}
use mathlib.Core.List.{Mem, Perm, Permᴰ, mem-cons, mem-cons_self, not-mem-nil, perm-cons}
use mathlib.Core.List.Perm
use mathlib.Core.List.Permᴰ
use mathlib.Core.HLevel.{⊥_prop}
use native.Mathlib.Nat.{ℕ_set}
use order_sync.Base.{
  suc, Bool, true, false, Option, none, some, List, [], ◌∷◌, ◌≡◌, refl, sym, ap, subst, ◌∙◌, ◌↔◌,
  arith, text_eq_refl, text_eq→eq, length, Bool-cases, Option-cases, inl, inr,
}
use order_sync.Base.Int.{eq_ℤ→eq, eq_ℤ_refl}
use order_sync.Contracts.{OrderItem, StoredOrder, price_eq_refl, price_eq→eq}
use order_sync.Shop.Webhook.{Webhook}
use order_sync.Shop.Service.{
  same_override, same_item, Marked, unmarked, mark_match, match_all, same_order_payload,
}

same_override→eq : (a b : Option Bool) → same_override a b ≡ true → a ≡ b
unfolding same_override
same_override→eq a b h = ground arith

same_override_refl : (a : Option Bool) → same_override a a ≡ true
unfolding same_override
same_override_refl none = refl
same_override_refl (some true) = refl
same_override_refl (some false) = refl

same_item→eq : (a b : OrderItem) → same_item a b ≡ true → a ≡ b
unfolding same_item
same_item→eq a b h = ground (
  arith,
  text_eq→eq a.sku b.sku,
  eq_ℤ→eq a.quantity b.quantity,
  price_eq→eq a.price b.price,
  same_override→eq a.is_hardware b.is_hardware,
)

pub same_item_refl : (a : OrderItem) → same_item a a ≡ true
unfolding same_item
same_item_refl a = rw (text_eq_refl, eq_ℤ_refl, price_eq_refl, same_override_refl) refl

-- The items that are not marked.
free : Marked → List OrderItem
free [] = []
free ((item, true) ∷ marks) = free marks
free ((item, false) ∷ marks) = item ∷ free marks

free-unmarked : (items : List OrderItem) → free (unmarked items) ≡ items
unfolding free unmarked
free-unmarked [] = refl
free-unmarked (item ∷ items) = ap (λ l. item ∷ l) (free-unmarked items)

-- A match takes one item out of the free ones.
mark_match-some :
    (x : OrderItem) (marks marks' : Marked)
    → mark_match x marks ≡ some marks'
    → Permᴰ (free marks) (x ∷ free marks')
unfolding free mark_match
mark_match-some x [] marks' h = absurd (cc)
mark_match-some x ((y, true) ∷ marks) marks' h = elim (Option-cases (mark_match x marks)) [
  | inl lost ↦ absurd (ground arith)
  | inr (later, found) ↦
      let e : marks' ≡ (y, true) ∷ later = ground arith in
      rw e (mark_match-some x marks later found)
]
mark_match-some x ((y, false) ∷ marks) marks' h = elim (Bool-cases (same_item x y)) [
  | inl same ↦
      let e : marks' ≡ (y, true) ∷ marks = ground arith in
      rw e (Permᴰ.cons (sym (same_item→eq x y same)) (Permᴰ.refl (free marks)))
  | inr differs ↦ elim (Option-cases (mark_match x marks)) [
    | inl lost ↦ absurd (ground arith)
    | inr (later, found) ↦
        let e : marks' ≡ (y, false) ∷ later = ground arith in
        rw e (
          Permᴰ.trans (Permᴰ.cons refl (mark_match-some x marks later found))
            (Permᴰ.swap refl refl))
  ]
]

mark_match-none :
    (x : OrderItem) (marks : Marked) → mark_match x marks ≡ none → ¬ Mem x (free marks)
unfolding free mark_match
mark_match-none x [] h m = not-mem-nil m
mark_match-none x ((y, true) ∷ marks) h m = mark_match-none x marks (ground arith) m
mark_match-none x ((y, false) ∷ marks) h m =
    Or.elim ⊥_prop (mem-cons.0 m)
      (λ e.
        let same : same_item x y ≡ true = subst (λ z. same_item x z ≡ true) e (same_item_refl x) in
        ground arith)
      (mark_match-none x marks (ground arith))

length-Permᴰ : {xs ys : List OrderItem} → Permᴰ xs ys → length xs ≡ length ys
length-Permᴰ Permᴰ.nil = refl
length-Permᴰ (Permᴰ.cons _ p) = ap suc (length-Permᴰ p)
length-Permᴰ (Permᴰ.swap _ _) = refl
length-Permᴰ (Permᴰ.trans p q) = length-Permᴰ p ∙ length-Permᴰ q

length-perm : {xs ys : List OrderItem} → Perm xs ys → length xs ≡ length ys
length-perm p = ∥∥₁_elim p (ℕ_set _ _) length-Permᴰ

nil-perm : (ys : List OrderItem) → 0 ≡ length ys → Perm [] ys
nil-perm [] e = Perm.nil
nil-perm (y ∷ ys) e = absurd (omega arith)

match_all-perm :
    (xs : List OrderItem) (marks : Marked)
    → match_all xs marks ≡ true
    → length xs ≡ length (free marks)
    → Perm xs (free marks)
unfolding match_all
match_all-perm [] marks h e = nil-perm (free marks) e
match_all-perm (x ∷ xs) marks h e = elim (Option-cases (mark_match x marks)) [
  | inl lost ↦ absurd (ground arith)
  | inr (later, found) ↦
      let taken = mark_match-some x marks later found in
      Perm.trans
        (Perm.cons x (match_all-perm xs later (ground arith) (omega (arith, length-Permᴰ taken))))
        (Perm.symm ∣ taken ∣₁)
]

perm-match_all :
    (xs : List OrderItem) (marks : Marked) → Perm xs (free marks) → match_all xs marks ≡ true
unfolding match_all
perm-match_all [] marks p = refl
perm-match_all (x ∷ xs) marks p = elim (Option-cases (mark_match x marks)) [
  | inl lost ↦ absurd (mark_match-none x marks lost ((Perm.mem_iff p).0 (mem-cons_self)))
  | inr (later, found) ↦
      rw (found, match_all)
        (perm-match_all xs later
          ((perm-cons x).0 (Perm.trans p ∣ mark_match-some x marks later found ∣₁)))
]

-- The stored order and the payload are taken for the same exactly when the customer emails are equal
-- and the items (SKU, quantity, price and hardware override) are a permutation of one another.
pub same_order_payload_iff :
    (existing : StoredOrder) (payload : Webhook)
    → (same_order_payload existing payload ≡ true)
      ↔ ((existing.customer_email ≡ payload.customer_email) × Perm existing.items payload.items)
unfolding same_order_payload
same_order_payload_iff existing payload = (forward, backward)
  where
    freed :
        length existing.items ≡ length payload.items
        → length existing.items ≡ length (free (unmarked payload.items))
    freed e = rw free-unmarked e

    forward :
        same_order_payload existing payload ≡ true
        → (existing.customer_email ≡ payload.customer_email) × Perm existing.items payload.items
    forward h = (
      text_eq→eq existing.customer_email payload.customer_email (ground arith),
      subst (Perm existing.items) (free-unmarked payload.items) (
          match_all-perm existing.items (unmarked payload.items) (ground arith)
            (freed (ground arith))),
    )

    backward :
        (existing.customer_email ≡ payload.customer_email) × Perm existing.items payload.items
        → same_order_payload existing payload ≡ true
    backward (e, p) = ground (
      arith,
      text_eq_refl payload.customer_email,
      length-perm p,
      perm-match_all existing.items (unmarked payload.items)
          (subst (Perm existing.items) (sym (free-unmarked payload.items)) p),
    )
