-- ===== src/Value/Decimal.antt =====
-- `std::to_string(long long)` and the integer side of `std::from_chars`, as src/odio/value.cpp and
-- src/odio/json_parse.cpp use them.
use osodio.Prelude.{
  Bytes, ℕ, zero, suc, ◌+◌, ◌-◌, ◌*◌, ◌/◌, ◌%◌, ◌^◌, ◌≤◌, ◌<◌, ◌≡◌, refl, ℤ, pos, negsuc, Bool,
  true, false, ◌&&◌, Option, none, some, [], ◌∷◌, All, leb, ltb, ◌==◌, if◌then◌else◌, arith,
  Bool-cases, inl, inr, lt→ltb, ap,
}

-- `digito`
abbrev pub digito : ℕ → Bool
digito c = leb b'0' c && leb c b'9'

-- The digits of a number in front of `rest`; `n` rounds are enough for `n`.
unfoldable pub digits_of : ℕ → ℕ → Bytes → Bytes
digits_of zero n rest = (b'0' + n % 10) ∷ rest
digits_of (suc rounds) n rest =
    let more = digits_of rounds (n / 10) ((b'0' + n % 10) ∷ rest) in
    if ltb n 10 then (b'0' + n) ∷ rest else more

unfoldable pub to_string : ℤ → Bytes
to_string (pos n) = digits_of n n []
to_string (negsuc n) = b'-' ∷ digits_of (suc n) (suc n) []

-- The number that digits stand for, behind those read so far.
unfoldable pub number_from : ℕ → Bytes → ℕ
number_from n [] = n
number_from n (c ∷ s) = number_from (n * 10 + (c - b'0')) s

-- `from_chars` into a `long long`: `none` is out of range.
unfoldable pub to_long : Bool → Bytes → Option ℤ
to_long false s = let n = number_from 0 s in if ltb n (2 ^ 63) then some (pos n) else none
to_long true s =
    let n = number_from 0 s in
    if n == 0 then some (pos 0) else if leb n (2 ^ 63) then some (negsuc (n - 1)) else none

-- The values of a `long long`.
abbrev pub InRange : ℤ → Type 0
InRange (pos n) = n < 2 ^ 63
InRange (negsuc n) = n < 2 ^ 63

pub number_from-digits_of :
    (rounds n : ℕ) (rest : Bytes)
    → n ≤ rounds
    → number_from 0 (digits_of rounds n rest) ≡ number_from n rest
unfolding number_from digits_of
number_from-digits_of zero zero rest h = refl
number_from-digits_of zero (suc n) rest h = absurd (omega arith)
number_from-digits_of (suc rounds) n rest h = elim (Bool-cases (ltb n 10)) [
  | inl small ↦ rw small (ap (λ m. number_from m rest) (omega arith))
  | inr large ↦
      rw (large, number_from-digits_of rounds (n / 10) ((b'0' + n % 10) ∷ rest) (ground arith))
        (ap (λ m. number_from m rest) (omega arith))
]

abbrev pub IsDigit : ℕ → Type 0
IsDigit c = digito c ≡ true

pub digits_of-All :
    (rounds n : ℕ) (rest : Bytes) → All IsDigit rest → All IsDigit (digits_of rounds n rest)
unfolding digits_of
digits_of-All zero n rest h = (ground arith, h)
digits_of-All (suc rounds) n rest h = elim (Bool-cases (ltb n 10)) [
  | inl small ↦ rw small (ground arith, h)
  | inr large ↦ rw large (digits_of-All rounds (n / 10) ((b'0' + n % 10) ∷ rest) (ground arith, h))
]

-- The first digit of a number that is not 0 is not '0'.
pub digits_of-head :
    (rounds n : ℕ) (rest : Bytes)
    → n ≤ rounds
    → 0 < n
    → (c : ℕ) × (more : Bytes) × (digits_of rounds n rest ≡ c ∷ more)
      × (leb b'1' c ≡ true)
      × (leb c b'9' ≡ true)
unfolding digits_of
digits_of-head zero n rest h p = absurd (omega arith)
digits_of-head (suc rounds) n rest h p = elim (Bool-cases (ltb n 10)) [
  | inl small ↦ (b'0' + n, rest, rw small refl, ground arith, ground arith)
  | inr large ↦
      let (c, more, e, lo, hi) =
        digits_of-head rounds (n / 10) ((b'0' + n % 10) ∷ rest) (ground arith) (ground arith) in
      (c, more, rw large e, lo, hi)
]

-- Reading the digits of an integer in the range of a `long long` gives it back.
pub to_long-digits_of : (n : ℕ) → n < 2 ^ 63 → to_long false (digits_of n n []) ≡ some (pos n)
unfolding to_long number_from
to_long-digits_of n h = rw (number_from-digits_of n n [] (omega arith), lt→ltb n (2 ^ 63) h)

pub to_long-digits_of_neg :
    (n : ℕ) → n < 2 ^ 63 → to_long true (digits_of (suc n) (suc n) []) ≡ some (negsuc n)
unfolding to_long number_from
to_long-digits_of_neg n h =
    rw (number_from-digits_of (suc n) (suc n) [] (omega arith)) (ground arith)
