-- ===== src/Vm/Weight.antt =====
-- How far the frames of src/odio/vm.cpp still are from the end of their code, as one number: the digits
-- of a number in base `b`, the bottom frame's first.
use osodio.Prelude.{
  ℕ, suc, ◌+◌, ◌-◌, ◌*◌, ◌^◌, ◌≤◌, ◌<◌, ◌≡◌, ap, List, [], ◌∷◌, arith, length, All,
}
use native.Mathlib.Nat.{pow-suc, mul_comm, suc-mul, mul-le-mul_right, one-le-pow}
use osodio.Vm.State.{Frame}

abbrev pub room : Frame → ℕ
room f = suc (length f.chunk.code - f.pc)

-- The place of a frame over `fs`, of `n` places.
abbrev pub place : (n b : ℕ) → List Frame → ℕ
place n b fs = b ^ (n - suc (length fs))

unfoldable pub weight : (n b : ℕ) → List Frame → ℕ
weight n b [] = 0
weight n b (f ∷ fs) = weight n b fs + room f * place n b fs

-- A digit below the base.
abbrev pub IsShort : ℕ → Frame → Type 0
IsShort b f = suc (room f) ≤ b

-- Two neighbouring places.
pow-gap : (n b m : ℕ) → suc m ≤ n → b ^ (n - m) ≡ b ^ (n - suc m) * b
pow-gap n b m h = let gap : n - m ≡ suc (n - suc m) = omega arith in rw gap (pow-suc b (n - suc m))

module _ (n b : ℕ) (positive : 0 < b) where
  place-positive : (fs : List Frame) → 1 ≤ place n b fs
  place-positive fs = one-le-pow (n - suc (length fs)) b positive

  -- The top frame gets nearer to its end.
  pub weight-ahead :
      (f g : Frame) (fs : List Frame)
      → suc (room g) ≤ room f
      → weight n b (g ∷ fs) < weight n b (f ∷ fs)
  unfolding weight
  weight-ahead f g fs h =
      omega (
        arith,
        mul-le-mul_right (place n b fs) h,
        suc-mul (room g) (place n b fs),
        place-positive fs,
      )

  pub weight-returned : (f : Frame) (fs : List Frame) → weight n b fs < weight n b (f ∷ fs)
  unfolding weight
  weight-returned f fs =
      omega (arith, suc-mul (length f.chunk.code - f.pc) (place n b fs), place-positive fs)

  -- A new frame is worth less than one step of its caller.
  pub weight-called :
      (f g callee : Frame) (fs : List Frame)
      → suc (room g) ≤ room f
      → IsShort b callee
      → suc (suc (length fs)) ≤ n
      → weight n b (callee ∷ g ∷ fs) < weight n b (f ∷ fs)
  unfolding weight
  weight-called f g callee fs h short fits = omega (
    arith,
    mul-le-mul_right (place n b fs) h,
    suc-mul (room g) (place n b fs),
    pow-gap n b (suc (length fs)) fits,
    mul_comm (place n b (g ∷ fs)) b,
    mul-le-mul_right (place n b (g ∷ fs)) short,
    suc-mul (room callee) (place n b (g ∷ fs)),
    place-positive (g ∷ fs),
  )

  -- All frames are worth less than one more place.
  pub weight-bound :
      (fs : List Frame)
      → All (IsShort b) fs
      → length fs ≤ n
      → weight n b fs + b ^ (n - length fs) ≤ b ^ n
  unfolding weight
  weight-bound [] h fits =
      let whole : n - 0 ≡ n = omega arith in omega (arith, ap (λ k. b ^ k) whole)
  weight-bound (f ∷ fs) (short, h) fits = omega (
    arith,
    weight-bound fs h (omega arith),
    pow-gap n b (length fs) fits,
    mul_comm (place n b fs) b,
    mul-le-mul_right (place n b fs) short,
    suc-mul (room f) (place n b fs),
  )
