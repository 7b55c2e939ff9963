-- ===== src/Base/Text.antt =====
-- strings.TrimSpace and strings.ToUpper, rune by rune.
use Prim.Native.Char.{Char, code}
use Prim.Native.String.{String, ◌++◌}
use mathlib.Core.Path.{◌≡◌, refl}
use mathlib.Core.Bool.{Bool, true, false, ◌&&◌, ◌||◌}
use text.Mathlib.TextLemmas.{nil-append, cons-append}
use native.Mathlib.Omega.{arith}
use Prim.Native.Nat.{ℕ}
use mathlib.Core.Logic.{inl, inr}
use order_sync.Base.Tests.{leb, ◌==◌, Bool-cases, if◌then◌else◌}

-- unicode.IsSpace: the ASCII spaces, U+0085, U+00A0 and the White_Space characters above.
unfoldable pub is_space_code : ℕ → Bool
is_space_code n =
    (leb 9 n && leb n 13)
    || n == 32
    || n == 0x85
    || n == 0xa0
    || n == 0x1680
    || (leb 0x2000 n && leb n 0x200a)
    || n == 0x2028
    || n == 0x2029
    || n == 0x202f
    || n == 0x205f
    || n == 0x3000

unfoldable pub is_space : Char → Bool
unfolding is_space_code
is_space c = is_space_code (code c)

unfoldable pub is_empty : String → Bool
is_empty String.[] = true
is_empty (String.◌∷◌ c s) = false

unfoldable pub trim_left : String → String
trim_left String.[] = String.[]
trim_left (String.◌∷◌ c s) = if is_space c then trim_left s else String.◌∷◌ c s

unfoldable pub trim_right : String → String
trim_right String.[] = String.[]
trim_right (String.◌∷◌ c s) =
    let rest = trim_right s in if is_space c && is_empty rest then String.[] else String.◌∷◌ c rest

-- strings.TrimSpace
unfoldable pub trim_space : String → String
unfolding trim_left trim_right is_empty is_space
trim_space s = trim_right (trim_left s)

-- strings.ToUpper, for unicode.ToUpper on a rune.
unfoldable pub map_text : (Char → Char) → String → String
map_text upper String.[] = String.[]
map_text upper (String.◌∷◌ c s) = String.◌∷◌ (upper c) (map_text upper s)

unfoldable pub to_upper : (Char → Char) → String → String
unfolding map_text
to_upper upper s = map_text upper s

abbrev pub append : String → String → String
append s t = s ++ t

-- Nothing but white space.
unfoldable pub is_blank : String → Bool
is_blank String.[] = true
is_blank (String.◌∷◌ c s) = is_space c && is_blank s

both : (a b : Bool) → a && b ≡ true → (a ≡ true) × (b ≡ true)
both true b h = (refl, h)
both false b h = ground arith

blank_cons :
    (c : Char) (s : String)
    → is_blank (String.◌∷◌ c s) ≡ true
    → (is_space c ≡ true) × (is_blank s ≡ true)
unfolding is_blank
blank_cons c s h = both (is_space c) (is_blank s) h

trim_left-blank_before :
    (before s : String) → is_blank before ≡ true → trim_left (before ++ s) ≡ trim_left s
unfolding trim_left
trim_left-blank_before String.[] s h = rw nil-append refl
trim_left-blank_before (String.◌∷◌ c before) s h =
    let (space, blank) = blank_cons c before h in
    rw cons-append (rw space (trim_left-blank_before before s blank))

trim_left-blank : (s : String) → is_blank s ≡ true → trim_left s ≡ String.[]
unfolding trim_left
trim_left-blank String.[] h = refl
trim_left-blank (String.◌∷◌ c s) h =
    let (space, blank) = blank_cons c s h in rw space (trim_left-blank s blank)

trim_right-blank : (s : String) → is_blank s ≡ true → trim_right s ≡ String.[]
unfolding trim_right is_empty
trim_right-blank String.[] h = refl
trim_right-blank (String.◌∷◌ c s) h =
    let (space, blank) = blank_cons c s h in rw (space, trim_right-blank s blank) refl

trim_right-blank_after :
    (s after : String) → is_blank after ≡ true → trim_right (s ++ after) ≡ trim_right s
unfolding trim_right
trim_right-blank_after String.[] after h = rw nil-append (trim_right-blank after h)
trim_right-blank_after (String.◌∷◌ c s) after h =
    rw cons-append (rw (trim_right-blank_after s after h) refl)

trim_left-blank_after :
    (s after : String)
    → is_blank after ≡ true
    → trim_right (trim_left (s ++ after)) ≡ trim_right (trim_left s)
unfolding trim_left trim_right
trim_left-blank_after String.[] after h = rw nil-append (rw (trim_left-blank after h) refl)
trim_left-blank_after (String.◌∷◌ c s) after h = elim (Bool-cases (is_space c)) [
  | inl space ↦ rw cons-append (rw space (trim_left-blank_after s after h))
  | inr kept ↦ rw cons-append (rw kept (rw (trim_right-blank_after s after h) refl))
]

-- White space around a text is lost.
pub trim_space-padded :
    (before s after : String)
    → is_blank before ≡ true
    → is_blank after ≡ true
    → trim_space (before ++ (s ++ after)) ≡ trim_space s
unfolding trim_space
trim_space-padded before s after h k =
    rw (trim_left-blank_before before (s ++ after) h) (trim_left-blank_after s after k)
