-- ===== src/Vm/Division.antt =====
-- `/` and `%` of src/odio/vm.cpp on two `long long` against the arithmetic of the integers.
use mathlib.Core.Bool.{false≢true}
use native.Mathlib.Nat.{
  div-add-mod', mod-lt, mod-le, mul-mod_left, div-le_self, div-mul-le_self, mul-le-mul_left,
}
use Prim.Native.Nat.add
use osodio.Prelude.{
  ℕ, suc, zero, ◌+◌, ◌-◌, ◌*◌, ◌/◌, ◌%◌, ◌^◌, ◌≤◌, ◌<◌, ◌≡◌, refl, ℤ, pos, negsuc, pos_part,
  neg_part, sub_ℕ, eq_ℤ, true, false, arith,
}
use osodio.Value.Decimal.{InRange}
use osodio.Vm.Words.{quotient, remainder, traps, is_negative, absolute, with_sign}
use osodio.Vm.Range.{IsSum, IsProduct}

neg_of : (d : ℕ) → (pos_part (sub_ℕ 0 d) ≡ 0) × (neg_part (sub_ℕ 0 d) ≡ d)
neg_of d = (ground arith, ground arith)

-- The part of `x` that `y` divides.
abbrev pub whole : ℤ → ℤ → ℤ
whole x y = with_sign (is_negative x) (absolute x / absolute y * absolute y)

-- A positive or a negative number of `d` in a product with one of `n`.
up_up : (d n k : ℕ) → k ≡ n → IsProduct (pos d) (pos n) (pos (d * k))
up_up d n k e = rw e (ground arith)

up_down : (d n k : ℕ) → k ≡ suc n → IsProduct (sub_ℕ 0 d) (negsuc n) (pos (d * k))
up_down d n k e = rw (e, (neg_of d).0, (neg_of d).1) (ground arith)

down_up : (d n k : ℕ) → k ≡ n → IsProduct (sub_ℕ 0 d) (pos n) (sub_ℕ 0 (d * k))
down_up d n k e =
    rw (e, (neg_of d).0, (neg_of d).1, (neg_of (d * n)).0, (neg_of (d * n)).1) (ground arith)

down_down : (d n k : ℕ) → k ≡ suc n → IsProduct (pos d) (negsuc n) (sub_ℕ 0 (d * k))
down_down d n k e = rw (e, (neg_of (d * suc n)).0, (neg_of (d * suc n)).1) (ground arith)

pub quotient-IsProduct : (x y : ℤ) → IsProduct (quotient x y) y (whole x y)
unfolding quotient
quotient-IsProduct (pos m) (pos n) = up_up _ n _ (omega arith)
quotient-IsProduct (pos m) (negsuc n) = up_down _ n _ (omega arith)
quotient-IsProduct (negsuc m) (pos n) = down_up _ n _ (omega arith)
quotient-IsProduct (negsuc m) (negsuc n) = down_down _ n _ (omega arith)

divided : (m n : ℕ) → m / n * n + m % n ≡ m
divided m n = div-add-mod' m n

pub whole-IsSum : (x y : ℤ) → IsSum (whole x y) (remainder x y) x
unfolding remainder
whole-IsSum (pos m) y = omega (arith, divided (m + 0) (absolute y))
whole-IsSum (negsuc m) y = omega (
  arith,
  divided (0 + suc m) (absolute y),
  (neg_of ((0 + suc m) / absolute y * absolute y)).0,
  (neg_of ((0 + suc m) / absolute y * absolute y)).1,
  (neg_of ((0 + suc m) % absolute y)).0,
  (neg_of ((0 + suc m) % absolute y)).1,
)

-- `r` lies between zero and `x`, and is nearer to zero than `y`.
pub record IsRemainder (x y r : ℤ) : Type 0 where
  pub times : ℤ
  pub multiple : ℤ
  pub product : IsProduct times y multiple
  pub sum : IsSum multiple r x
  pub nearer : absolute r < absolute y
  pub above : pos_part r ≤ pos_part x
  pub below : neg_part r ≤ neg_part x

pub remainder_between :
    (x y : ℤ)
    → 0 < absolute y
    → (absolute (remainder x y) < absolute y)
      × (pos_part (remainder x y) ≤ pos_part x)
      × (neg_part (remainder x y) ≤ neg_part x)
unfolding remainder
remainder_between (pos m) y h =
    let lt : (m + 0) % absolute y < absolute y = mod-lt (m + 0) {m = absolute y} h in
    let le : (m + 0) % absolute y ≤ m + 0 = mod-le (m + 0) (absolute y) in
    (omega (arith, lt), omega (arith, le), omega arith)
remainder_between (negsuc m) y h =
    let lt : (0 + suc m) % absolute y < absolute y = mod-lt (0 + suc m) {m = absolute y} h in
    let le : (0 + suc m) % absolute y ≤ 0 + suc m = mod-le (0 + suc m) (absolute y) in
    let n = neg_of ((0 + suc m) % absolute y) in
    (omega (arith, lt, n.0, n.1), omega (arith, n.0), omega (arith, le, n.1))

minus-InRange : (n : ℕ) → n ≤ 2 ^ 63 → InRange (sub_ℕ 0 n)
minus-InRange n h = ground arith

pub remainder-InRange : (x y : ℤ) → InRange x → InRange (remainder x y)
unfolding remainder
remainder-InRange (pos m) y h = omega (arith, mod-le (m + 0) (pos_part y + neg_part y))
remainder-InRange (negsuc m) y h =
    minus-InRange _ (omega (arith, mod-le (0 + suc m) (pos_part y + neg_part y)))

-- Half of it at most, when divided by two or more.
halved : (m n : ℕ) → 2 ≤ n → m / n * 2 ≤ m
halved m n h = omega (arith, div-mul-le_self m n, mul-le-mul_left (m / n) h)

same_signs :
    (m n : ℕ) → suc m ≤ 2 ^ 63 → traps (negsuc m) (negsuc n) ≡ false → suc m / suc n < 2 ^ 63
unfolding traps
same_signs m zero h t = let all : suc m / 1 ≤ suc m = div-le_self (suc m) 1 in ground arith
same_signs m (suc n) h t = omega (arith, halved (suc m) (suc (suc n)) (omega arith))

pub quotient-InRange : (x y : ℤ) → InRange x → traps x y ≡ false → InRange (quotient x y)
unfolding quotient
quotient-InRange (pos m) (pos n) h t = omega (arith, div-le_self (m + 0) (n + 0))
quotient-InRange (pos m) (negsuc n) h t =
    minus-InRange _ (omega (arith, div-le_self (m + 0) (0 + suc n)))
quotient-InRange (negsuc m) (pos n) h t =
    minus-InRange _ (omega (arith, div-le_self (0 + suc m) (n + 0)))
quotient-InRange (negsuc m) (negsuc n) h t =
    rw (add.zero (suc m), add.zero (suc n)) (same_signs m n (omega arith) t)

-- A pair that traps has no quotient of 64 bits.
pub trapped : (x y z : ℤ) → traps x y ≡ true → IsProduct z y x → ¬ InRange z
unfolding traps
trapped (negsuc m) (negsuc n) (pos k) t e i =
    let edge : (m ≡ 2 ^ 63 - 1) × (n ≡ 0) = ground arith in
    let whole_one : IsProduct (pos k) (negsuc 0) (negsuc m) = rw edge.1 at e in
    omega (arith, whole_one, edge.0, i)
trapped (negsuc m) (negsuc n) (negsuc k) t e i =
    let edge : (m ≡ 2 ^ 63 - 1) × (n ≡ 0) = ground arith in
    let whole_one : IsProduct (negsuc k) (negsuc 0) (negsuc m) = rw edge.1 at e in
    omega (arith, whole_one, edge.0, i)
trapped (pos m) y z t e i = absurd (false≢true t)
trapped (negsuc m) (pos n) z t e i = absurd (false≢true t)

zero-parts : (z : ℤ) → eq_ℤ z (pos 0) ≡ true → (pos_part z ≡ 0) × (neg_part z ≡ 0)
zero-parts (pos n) e = ground arith
zero-parts (negsuc n) e = ground arith

pub exact-IsProduct : (x y : ℤ) → eq_ℤ (remainder x y) (pos 0) ≡ true → IsProduct (quotient x y) y x
exact-IsProduct x y e =
    omega (arith, zero-parts (remainder x y) e, quotient-IsProduct x y, whole-IsSum x y)

pub absolute-IsProduct : (z y x : ℤ) → IsProduct z y x → absolute z * absolute y ≡ absolute x
absolute-IsProduct (pos k) (pos n) (pos m) e = ground arith
absolute-IsProduct (pos k) (pos n) (negsuc m) e = ground arith
absolute-IsProduct (pos k) (negsuc n) (pos m) e = ground arith
absolute-IsProduct (pos k) (negsuc n) (negsuc m) e = ground arith
absolute-IsProduct (negsuc k) (pos n) (pos m) e = ground arith
absolute-IsProduct (negsuc k) (pos n) (negsuc m) e = ground arith
absolute-IsProduct (negsuc k) (negsuc n) (pos m) e = ground arith
absolute-IsProduct (negsuc k) (negsuc n) (negsuc m) e = ground arith

pub times-mod : (k n : ℕ) → k * n % n ≡ 0
times-mod k n = mul-mod_left k n

pub remainder_zero : (x y : ℤ) → absolute x % absolute y ≡ 0 → eq_ℤ (remainder x y) (pos 0) ≡ true
unfolding remainder
remainder_zero (pos m) y e = rw e refl
remainder_zero (negsuc m) y e = rw e refl
