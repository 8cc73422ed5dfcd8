-- ===== src/Vm/Exact.antt =====
-- The five operators of src/odio/vm.cpp on two `long long`, and the unary `-`.
use mathlib.Core.Bool.{false≢true}
use osodio.Prelude.{
  ◌*◌, ◌%◌, ◌≡◌, sym, ◌∙◌, ℤ, pos, negsuc, eq_ℤ, true, false, arith, Bool-cases, inl, inr,
}
use osodio.Value.Decimal.{InRange}
use osodio.Vm.Boxes.{integer, real, Boxes}
use osodio.Vm.Words.{quotient, remainder, traps, FloatOps, eq_double, absolute}
use osodio.Vm.Arithmetic.{Answer, value, refused, trap, modulo_longs, divide_longs}
use osodio.Vm.Range.{IsProduct}
use osodio.Prelude.{ap}
use osodio.Vm.Division.{
  IsRemainder, whole, remainder_between, remainder-InRange, quotient-InRange, trapped,
  exact-IsProduct, quotient-IsProduct, whole-IsSum, absolute-IsProduct, times-mod, remainder_zero,
}

-- A `long long` becomes a `double` that is zero when it is zero itself.
abbrev pub ZeroOfLong : FloatOps → Type 0
ZeroOfLong fl = (z : ℤ) → eq_double (fl.of_long z) 0 ≡ eq_ℤ z (pos 0)

-- What `/` gives: the exact quotient; or nothing is defined because that has no 64 bits; or a `double`,
-- where there is no exact quotient. Division by zero is refused, and no other.
abbrev pub DividesExactly : ℤ → ℤ → Answer → Type 0
DividesExactly x y (value (integer z) h) = (¬ (y ≡ pos 0)) × InRange z × IsProduct z y x
DividesExactly x y (value (real d) h) = (¬ (y ≡ pos 0)) × ((z : ℤ) → ¬ IsProduct z y x)
DividesExactly x y (value v h) = ⊥
DividesExactly x y (refused m) = y ≡ pos 0
DividesExactly x y trap = (z : ℤ) → IsProduct z y x → ¬ InRange z

-- What `%` gives: the remainder, unless the quotient has no 64 bits. Division by zero is refused, and
-- no other.
abbrev pub LeavesExactly : ℤ → ℤ → Answer → Type 0
LeavesExactly x y (value (integer r) h) = InRange r × IsRemainder x y r
LeavesExactly x y (value v h) = ⊥
LeavesExactly x y (refused m) = y ≡ pos 0
LeavesExactly x y trap = (z : ℤ) → IsProduct z y x → ¬ InRange z

zero_only : (y : ℤ) → eq_ℤ y (pos 0) ≡ true → y ≡ pos 0
zero_only (pos n) e = ap pos (ground arith)
zero_only (negsuc n) e = absurd (ground arith)

not_zero : (y : ℤ) → eq_ℤ y (pos 0) ≡ false → ¬ (y ≡ pos 0)
not_zero y e zero_there = absurd (false≢true (sym (rw zero_there at e)))

module _ (fl : FloatOps) (x y : ℤ) (h : Boxes) where
  inexact : eq_ℤ (remainder x y) (pos 0) ≡ false → (z : ℤ) → ¬ IsProduct z y x
  inexact e z p =
      let parts : absolute z * absolute y ≡ absolute x = absolute-IsProduct z y x p in
      let none_left : absolute x % absolute y ≡ 0 =
        rw parts at (times-mod (absolute z) (absolute y)) in
      absurd (false≢true (sym e ∙ remainder_zero x y none_left))

  pub divide_longs-DividesExactly :
      ZeroOfLong fl → InRange x → DividesExactly x y (divide_longs fl x y h)
  unfolding divide_longs
  divide_longs-DividesExactly zeros inside = elim (Bool-cases (eq_double (fl.of_long y) 0)) [
    | inl zero_there ↦ rw (divide_longs, zero_there) (zero_only y (sym (zeros y) ∙ zero_there))
    | inr more ↦ elim (Bool-cases (traps x y)) [
      | inl t ↦ rw (divide_longs, more, t) (λ z p. trapped x y z t p)
      | inr fine ↦ elim (Bool-cases (eq_ℤ (remainder x y) (pos 0))) [
        | inl exact ↦
            rw (divide_longs, more, fine, exact)
              (
                not_zero y (sym (zeros y) ∙ more),
                quotient-InRange x y inside fine,
                exact-IsProduct x y exact,
              )
        | inr left ↦
            rw (divide_longs, more, fine, left)
              (not_zero y (sym (zeros y) ∙ more), λ z p. inexact left z p)
      ]
    ]
  ]

  pub modulo_longs-LeavesExactly : InRange x → LeavesExactly x y (modulo_longs fl x y h)
  unfolding modulo_longs
  modulo_longs-LeavesExactly inside = elim (Bool-cases (eq_ℤ y (pos 0))) [
    | inl zero_there ↦ rw (modulo_longs, zero_there) (zero_only y zero_there)
    | inr more ↦ elim (Bool-cases (traps x y)) [
      | inl t ↦ rw (modulo_longs, more, t) (λ z p. trapped x y z t p)
      | inr fine ↦
          let between = remainder_between x y (ground arith) in
          rw (modulo_longs, more, fine)
            (
              remainder-InRange x y inside,
              record {
                times = quotient x y;
                multiple = whole x y;
                product = quotient-IsProduct x y;
                sum = whole-IsSum x y;
                nearer = between.0;
                above = between.1;
                below = between.2;
              },
            )
    ]
  ]
