-- ===== src/Base/Rows.antt =====
-- Tables as lists of rows: what one SELECT, UPDATE or EXISTS does with a WHERE test, and the two
-- laws by which a lookup after a write is read.
use Prim.Native.Nat.{ℕ, suc}
use mathlib.Core.Path.{◌≡◌, refl, ap}
use mathlib.Core.Bool.{Bool, true, false}
use mathlib.Core.Option
use mathlib.Core.Option.{Option, none, some}
use mathlib.Core.List.{List, [], ◌∷◌, ◌++◌}
use native.Mathlib.Omega.{arith}
use order_sync.Base.Tests.{if◌then◌else◌}

module _ {ℓ} {R : Type ℓ} where
  abbrev pub length : List R → ℕ
  length [] = 0
  length (_ ∷ rs) = suc (length rs)

  -- The first row that passes the test.
  unfoldable pub find_row : (R → Bool) → List R → Option R
  find_row p [] = none
  find_row p (r ∷ rs) = if p r then some r else find_row p rs

  unfoldable pub filter_rows : (R → Bool) → List R → List R
  filter_rows p [] = []
  filter_rows p (r ∷ rs) = let rest = filter_rows p rs in if p r then r ∷ rest else rest

  abbrev pub found_any : Option R → Bool
  found_any none = false
  found_any (some _) = true

  unfoldable pub has_row : (R → Bool) → List R → Bool
  unfolding find_row
  has_row p rs = found_any (find_row p rs)

  unfoldable pub update_rows : (R → Bool) → (R → R) → List R → List R
  update_rows q f [] = []
  update_rows q f (r ∷ rs) = (if q r then f r else r) ∷ update_rows q f rs

  abbrev pub or_row : Option R → Option R → Option R
  or_row (some r) _ = some r
  or_row none o = o

  pub find_row-insert :
      (p : R → Bool) (rs : List R) (r : R)
      → find_row p (rs ++ r ∷ []) ≡ or_row (find_row p rs) (if p r then some r else none)
  unfolding find_row
  find_row-insert p [] r = refl
  find_row-insert p (s ∷ rs) r = ground (arith, find_row-insert p rs r)

  -- An update that keeps what `p` reads is seen in the row that `p` finds.
  pub find_row-update :
      (p q : R → Bool) (f : R → R)
      → ((r : R) → p (f r) ≡ p r)
      → (rs : List R)
      → find_row p (update_rows q f rs) ≡ Option.map (λ r. if q r then f r else r) (find_row p rs)
  unfolding find_row update_rows
  find_row-update p q f keeps [] = refl
  find_row-update p q f keeps (r ∷ rs) = ground (arith, keeps r, find_row-update p q f keeps rs)

  -- What a lookup finds passes its test.
  pub find_row_test : (p : R → Bool) (rs : List R) (r : R) → find_row p rs ≡ some r → p r ≡ true
  unfolding find_row
  find_row_test p [] r h = ground arith
  find_row_test p (s ∷ rs) r h = ground (arith, find_row_test p rs r)

  pub filter_rows-append :
      (p : R → Bool) (rs ss : List R)
      → filter_rows p (rs ++ ss) ≡ filter_rows p rs ++ filter_rows p ss
  unfolding filter_rows
  filter_rows-append p [] ss = refl
  filter_rows-append p (r ∷ rs) ss = ground (arith, filter_rows-append p rs ss)

  pub has_row-none : (p : R → Bool) (rs : List R) → find_row p rs ≡ none → has_row p rs ≡ false
  unfolding has_row
  has_row-none p rs h = ap found_any h

  pub has_row-some :
      (p : R → Bool) (rs : List R) (r : R) → find_row p rs ≡ some r → has_row p rs ≡ true
  unfolding has_row
  has_row-some p rs r h = ap found_any h

  pub update_rows-append :
      (q : R → Bool) (f : R → R) (rs ss : List R)
      → update_rows q f (rs ++ ss) ≡ update_rows q f rs ++ update_rows q f ss
  unfolding update_rows
  update_rows-append q f [] ss = refl
  update_rows-append q f (r ∷ rs) ss =
      ap (λ l. (if q r then f r else r) ∷ l) (update_rows-append q f rs ss)

  pub update_rows-none :
      (q : R → Bool) (f : R → R) (rs : List R) → find_row q rs ≡ none → update_rows q f rs ≡ rs
  unfolding find_row update_rows
  update_rows-none q f [] h = refl
  update_rows-none q f (r ∷ rs) h = ground (arith, update_rows-none q f rs)

  pub filter_rows-none : (q : R → Bool) (rs : List R) → find_row q rs ≡ none → filter_rows q rs ≡ []
  unfolding find_row filter_rows
  filter_rows-none q [] h = refl
  filter_rows-none q (r ∷ rs) h = ground (arith, filter_rows-none q rs)

  -- A test that passes fewer rows finds none where the wider one finds none.
  pub find_row-narrower :
      (p q : R → Bool)
      → ((r : R) → p r ≡ false → q r ≡ false)
      → (rs : List R) → find_row p rs ≡ none
      → find_row q rs ≡ none
  unfolding find_row
  find_row-narrower p q narrower [] h = refl
  find_row-narrower p q narrower (r ∷ rs) h =
      ground (arith, narrower r, find_row-narrower p q narrower rs)
