-- ===== src/Contracts/Money.antt =====
-- The field `Price float64` of an order item. A finite float64 is held as the shortest decimal that
-- denotes it, `mantissa * 10 ^ -scale` in lowest terms (the form in which both encoding/json and
-- the database driver write it), so that Go's `==` compares the two numbers. JSON has no NaN or
-- infinity. The column is NUMERIC(12, 2), which rounds half away from zero.
use order_sync.Base.{
  ℕ, zero, suc, ◌+◌, ◌-◌, ◌*◌, ◌/◌, ◌%◌, ◌^◌, ◌≤◌, ◌<◌, Bool, true, ◌&&◌, Option, none, some, ◌≡◌,
  arith, leb, ltb, ◌==◌, if◌then◌else◌,
}
use order_sync.Base.Int.{ℤ, pos, pos_part, neg_part, eq_ℤ, eq_ℤ→eq, eq_ℤ_refl}

pub record Price : Type 0 where
  pub mantissa : ℤ
  pub scale : ℕ

unfoldable pub price_eq : Price → Price → Bool
price_eq a b = eq_ℤ a.mantissa b.mantissa && a.scale == b.scale

unfoldable pub price_negative : Price → Bool
price_negative p = ltb 0 (neg_part p.mantissa)

-- Lowest terms of `n * 10 ^ -scale`, for a scale of at most two.
abbrev lowest : ℕ → ℕ → Price
lowest n zero = record { mantissa = pos n; scale = 0 }
lowest n (suc s) =
    let shorter = lowest (n / 10) s in
    if n % 10 == 0 then shorter else record { mantissa = pos n; scale = suc s }

-- The magnitude of `p`, rounded to cents.
abbrev pub in_cents : Price → ℕ
in_cents p =
    let magnitude = pos_part p.mantissa + neg_part p.mantissa in
    if leb p.scale 2
    then magnitude * 10 ^ (2 - p.scale)
    else (magnitude + 10 ^ (p.scale - 2) / 2) / 10 ^ (p.scale - 2)

-- What the column `price NUMERIC(12, 2) CHECK (price >= 0)` keeps, read back as a float64; `none` is
-- the error for a price that is negative when it is rounded, or has more than ten digits before the
-- point then. A negative price that rounds to zero is kept as zero.
unfoldable pub stored_price : Price → Option Price
unfolding price_negative
stored_price p =
    if price_negative p && ltb 0 (in_cents p)
    then none
    else (if ltb (in_cents p) (10 ^ 12)
        then some (if leb p.scale 2 then p else lowest (in_cents p) 2)
        else none)

-- A price that the column keeps unchanged: not negative, at most two decimals, at most ten digits
-- before the point.
pub record IsStorable (p : Price) : Type 0 where
  pub not_negative : neg_part p.mantissa ≡ 0
  pub two_decimals : p.scale ≤ 2
  pub fits : in_cents p < 10 ^ 12

pub stored_price-IsStorable : (p : Price) → IsStorable p → stored_price p ≡ some p
unfolding stored_price
stored_price-IsStorable p h = ground arith

pub price_eq_refl : (p : Price) → price_eq p p ≡ true
unfolding price_eq
price_eq_refl p = ground (arith, eq_ℤ_refl p.mantissa)

pub price_eq→eq : (a b : Price) → price_eq a b ≡ true → a ≡ b
unfolding price_eq
price_eq→eq a b h = ground (arith, eq_ℤ→eq a.mantissa b.mantissa)
