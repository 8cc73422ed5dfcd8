-- ===== src/Vm/Words.antt =====
-- The arithmetic of `long long` and the order of `double`, as src/odio/vm.cpp uses them.
use osodio.Prelude.{
  ℕ, ◌+◌, ◌-◌, ◌*◌, ◌/◌, ◌%◌, ◌^◌, ℤ, pos, negsuc, pos_part, neg_part, sub_ℕ, Bool, true, false,
  not, Option, none, some, ◌&&◌, ◌||◌, ltb, leb, ◌==◌, if◌then◌else◌,
}

-- A number that a `long long` holds.
abbrev pub fits : ℤ → Bool
fits (pos n) = ltb n (2 ^ 63)
fits (negsuc n) = ltb n (2 ^ 63)

abbrev pub if_fits : ℤ → Option ℤ
if_fits z = if fits z then some z else none

-- A result that a `long long` does not hold is undefined: `none`.
unfoldable pub add_long : ℤ → ℤ → Option ℤ
add_long x y = if_fits (sub_ℕ (pos_part x + pos_part y) (neg_part x + neg_part y))

unfoldable pub sub_long : ℤ → ℤ → Option ℤ
sub_long x y = if_fits (sub_ℕ (pos_part x + neg_part y) (neg_part x + pos_part y))

unfoldable pub mul_long : ℤ → ℤ → Option ℤ
mul_long x y = if_fits (
    sub_ℕ (pos_part x * pos_part y + neg_part x * neg_part y)
      (pos_part x * neg_part y + neg_part x * pos_part y))

abbrev pub is_negative : ℤ → Bool
is_negative (pos n) = false
is_negative (negsuc n) = true

abbrev pub absolute : ℤ → ℕ
absolute x = pos_part x + neg_part x

abbrev pub with_sign : Bool → ℕ → ℤ
with_sign negative n = if negative then sub_ℕ 0 n else pos n

-- `x / y` and `x % y`, cut off towards zero; `y` is not zero.
unfoldable pub quotient : ℤ → ℤ → ℤ
quotient x y =
    with_sign (is_negative x && not (is_negative y) || not (is_negative x) && is_negative y)
      (absolute x / absolute y)

unfoldable pub remainder : ℤ → ℤ → ℤ
remainder x y = with_sign (is_negative x) (absolute x % absolute y)

-- The one pair whose quotient a `long long` does not hold: the division is undefined, and a processor traps.
unfoldable pub traps : ℤ → ℤ → Bool
traps (negsuc m) (negsuc n) = m == 2 ^ 63 - 1 && n == 0
traps _ _ = false

-- The sum, the difference, the product and the quotient of two `double`, and the nearest `double`
-- of a `long long`, all by their 64 bits.
pub record FloatOps : Type 0 where
  pub add_double : ℕ → ℕ → ℕ
  pub sub_double : ℕ → ℕ → ℕ
  pub mul_double : ℕ → ℕ → ℕ
  pub div_double : ℕ → ℕ → ℕ
  pub of_long : ℤ → ℕ

-- Without its sign.
abbrev weight : ℕ → ℕ
weight d = d % 2 ^ 63

unfoldable pub is_nan : ℕ → Bool
is_nan d = ltb (2047 * 2 ^ 52) (weight d)

-- A place in the order: the two zeros have one, and only numbers have one.
abbrev place : ℕ → ℤ
place d = with_sign (leb (2 ^ 63) d) (weight d)

unfoldable pub eq_double : ℕ → ℕ → Bool
eq_double x y =
    not (is_nan x || is_nan y)
    && pos_part (place x) + neg_part (place y) == pos_part (place y) + neg_part (place x)

unfoldable pub lt_double : ℕ → ℕ → Bool
lt_double x y =
    not (is_nan x || is_nan y)
    && ltb (pos_part (place x) + neg_part (place y)) (pos_part (place y) + neg_part (place x))

-- `-d`
unfoldable pub neg_double : ℕ → ℕ
neg_double d = if leb (2 ^ 63) d then d - 2 ^ 63 else d + 2 ^ 63
