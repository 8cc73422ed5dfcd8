-- ===== src/Vm/Range.antt =====
-- The operators of src/odio/vm.cpp on two `long long` against the arithmetic of the integers.
use osodio.Prelude.{
  ℕ, ◌+◌, ◌*◌, ◌≡◌, ℤ, pos, negsuc, pos_part, neg_part, sub_ℕ, true, false, arith, Bool-cases, inl,
  inr,
}
use osodio.Value.Decimal.{InRange}
use osodio.Vm.Boxes.{integer, Boxes}
use osodio.Vm.Code.{sub, mul}
use osodio.Vm.Words.{fits, if_fits, add_long, sub_long, mul_long, FloatOps}
use osodio.Vm.Arithmetic.{
  Answer, value, trap, long_answer, add_values, arith_values, arith_longs, negate,
}

-- `z` is `x + y`, `x - y`, `x * y`: both sides without their negative parts.
abbrev pub IsSum : ℤ → ℤ → ℤ → Type 0
IsSum x y z = pos_part z + (neg_part x + neg_part y) ≡ neg_part z + (pos_part x + pos_part y)

abbrev pub IsDifference : ℤ → ℤ → ℤ → Type 0
IsDifference x y z = IsSum z y x

abbrev pub IsProduct : ℤ → ℤ → ℤ → Type 0
IsProduct x y z =
    pos_part z + (pos_part x * neg_part y + neg_part x * pos_part y)
    ≡ neg_part z + (pos_part x * pos_part y + neg_part x * neg_part y)

-- The answer is the integer that `R` describes, or nothing is defined because it has no 64 bits.
abbrev pub Exact : (ℤ → Type 0) → Answer → Type 0
Exact R (value (integer z) h) = InRange z × R z
Exact R trap = (z : ℤ) → R z → ¬ InRange z
Exact R _ = ⊥

fits-InRange : (z : ℤ) → fits z ≡ true → InRange z
fits-InRange (pos n) h = ground arith
fits-InRange (negsuc n) h = ground arith

misfit : (z : ℤ) → fits z ≡ false → ¬ InRange z
misfit (pos n) h = λ k. ground arith
misfit (negsuc n) h = λ k. ground arith

-- A difference of natural numbers: the parts of one that is alike are the same.
sub_ℕ-parts : (a b : ℕ) → pos_part (sub_ℕ a b) + b ≡ neg_part (sub_ℕ a b) + a
sub_ℕ-parts a b = ground arith

same_range :
    (a b : ℕ) (z : ℤ) → pos_part z + b ≡ neg_part z + a → ¬ InRange (sub_ℕ a b) → ¬ InRange z
same_range a b (pos n) e h k = h (ground arith)
same_range a b (negsuc n) e h k = h (ground arith)

long_answer-Exact :
    (R : ℤ → Type 0) (a b : ℕ) (h : Boxes)
    → R (sub_ℕ a b)
    → ((z : ℤ) → R z → pos_part z + b ≡ neg_part z + a)
    → Exact R (long_answer (if_fits (sub_ℕ a b)) h)
long_answer-Exact R a b h r only = elim (Bool-cases (fits (sub_ℕ a b))) [
  | inl inside ↦ rw inside (fits-InRange (sub_ℕ a b) inside, r)
  | inr outside ↦ rw outside (λ z k. same_range a b z (only z k) (misfit (sub_ℕ a b) outside))
]

module _ (fl : FloatOps) (x y : ℤ) (h : Boxes) where
  pub add_values-Exact : Exact (IsSum x y) (add_values fl (integer x) (integer y) h)
  unfolding add_values add_long
  add_values-Exact =
      long_answer-Exact (IsSum x y) (pos_part x + pos_part y) (neg_part x + neg_part y) h
        (sub_ℕ-parts _ _) (λ z k. k)

  pub sub-Exact : Exact (IsDifference x y) (arith_values fl sub (integer x) (integer y) h)
  unfolding arith_values arith_longs sub_long
  sub-Exact =
      long_answer-Exact (IsDifference x y) (pos_part x + neg_part y) (neg_part x + pos_part y) h
        (omega (arith, sub_ℕ-parts (pos_part x + neg_part y) (neg_part x + pos_part y)))
        (λ z k. omega (arith, k))

  pub mul-Exact : Exact (IsProduct x y) (arith_values fl mul (integer x) (integer y) h)
  unfolding arith_values arith_longs mul_long
  mul-Exact =
      long_answer-Exact (IsProduct x y) (pos_part x * pos_part y + neg_part x * neg_part y)
        (pos_part x * neg_part y + neg_part x * pos_part y) h (sub_ℕ-parts _ _) (λ z k. k)

pub negate-Exact :
    (fl : FloatOps) (x : ℤ) (h : Boxes) → Exact (IsDifference (pos 0) x) (negate fl (integer x) h)
unfolding negate sub_long
negate-Exact fl x h =
    long_answer-Exact (IsDifference (pos 0) x) (0 + neg_part x) (0 + pos_part x) h
      (omega (arith, sub_ℕ-parts (0 + neg_part x) (0 + pos_part x))) (λ z k. omega (arith, k))
