-- ===== src/Crypto/Compare.antt =====
-- `constant_time_equal` of src/odio/crypto.cpp.
use Prim.Native.Nat.{bit_or, bit_xor}
use mathlib.Core.Path.{ap₂}
use osodio.Bits.{bit_or-eq-zero, bit_xor_self, bit_xor-eq-zero}
use osodio.Prelude.{
  Bytes, ℕ, ◌≡◌, ◌↔◌, refl, Bool, true, false, [], ◌∷◌, length, ◌==◌, if◌then◌else◌, arith,
}

-- `diff |= a[i] ^ b[i]` for each index; the two have the same length.
differences : Bytes → Bytes → ℕ → ℕ
differences (c ∷ a) (d ∷ b) diff = differences a b (bit_or diff (bit_xor c d))
differences _ _ diff = diff

unfoldable pub constant_time_equal : Bytes → Bytes → Bool
unfolding differences
constant_time_equal a b = if length a == length b then differences a b 0 == 0 else false

differences_self : (a : Bytes) → differences a a 0 ≡ 0
unfolding differences
differences_self [] = refl
differences_self (c ∷ a) = rw (bit_xor_self) (differences_self a)

differences-eq-zero :
    (a b : Bytes) (diff : ℕ) → length a ≡ length b → differences a b diff ≡ 0 → (diff ≡ 0) × (a ≡ b)
unfolding differences
differences-eq-zero [] [] diff e h = (h, refl)
differences-eq-zero [] (d ∷ b) diff e h = absurd (omega arith)
differences-eq-zero (c ∷ a) [] diff e h = absurd (omega arith)
differences-eq-zero (c ∷ a) (d ∷ b) diff e h =
    let (seen, rest) = differences-eq-zero a b (bit_or diff (bit_xor c d)) (omega arith) h in
    let (before, here) = bit_or-eq-zero diff (bit_xor c d) seen in
    (before, ap₂ ◌∷◌ (bit_xor-eq-zero c d here) rest)

-- The loop that does not stop at the first difference accepts exactly equal texts.
pub constant_time_equal_iff : (a b : Bytes) → (constant_time_equal a b ≡ true) ↔ (a ≡ b)
unfolding constant_time_equal
constant_time_equal_iff a b = (same, equal)
  where
    same : constant_time_equal a b ≡ true → a ≡ b
    same h = (differences-eq-zero a b 0 (ground arith) (ground arith)).1

    equal : a ≡ b → constant_time_equal a b ≡ true
    equal e = rw e (ground (arith, differences_self b))
