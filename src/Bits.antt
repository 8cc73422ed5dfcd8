-- ===== src/Bits.antt =====
-- Laws of `|` and `^` that the sources rely on, from the digits that the native operations stand for.
use Prim.Native.Nat.{
  bit_and, bit_or, bit_xor, digits, differ, min, max, bit_and-bitwise, bit_or-bitwise,
  bit_xor-bitwise,
}
use native.Mathlib.Nat.{pow-suc}
use osodio.Prelude.{◌^◌, ℕ, zero, suc, ◌+◌, ◌*◌, ◌/◌, ◌%◌, ◌≡◌, ◌<◌, ◌≤◌, refl, sym, ap, ◌∙◌, arith}

-- An operation whose result is the second number once the first has no digits left.
module _ (f : ℕ → ℕ → ℕ) where
  abbrev spread : ℕ → ℕ → ℕ → ℕ
  spread = digits (λ y. y) f

  -- The count of digits makes no difference once it covers the first number.
  spread_covers : (b a n m : ℕ) → a ≤ n → a ≤ m → spread n a b ≡ spread m a b
  spread_covers b zero zero zero h k = refl
  spread_covers b zero zero (suc m) h k = refl
  spread_covers b zero (suc n) zero h k = refl
  spread_covers b zero (suc n) (suc m) h k = refl
  spread_covers b (suc a) zero m h k = absurd (omega arith)
  spread_covers b (suc a) (suc n) zero h k = absurd (omega arith)
  spread_covers b (suc a) (suc n) (suc m) h k =
      ap (λ (q : ℕ). q * 2 + f (suc a % 2) (b % 2))
        (spread_covers (b / 2) (suc a / 2) n m (omega arith) (omega arith))

  spread_step :
      (a b : ℕ)
      → spread (suc a) (suc a) b
        ≡ spread (suc a / 2) (suc a / 2) (b / 2) * 2 + f (suc a % 2) (b % 2)
  spread_step a b =
      ap (λ (q : ℕ). q * 2 + f (suc a % 2) (b % 2))
        (spread_covers (b / 2) (suc a / 2) a (suc a / 2) (omega arith) (omega arith))

bit_or-digits : (a b : ℕ) → bit_or a b ≡ bit_or (a / 2) (b / 2) * 2 + max (a % 2) (b % 2)
bit_or-digits zero b = simp bit_or-bitwise (omega arith)
bit_or-digits (suc a) b = simp bit_or-bitwise (spread_step max a b)

bit_xor-digits : (a b : ℕ) → bit_xor a b ≡ bit_xor (a / 2) (b / 2) * 2 + differ (a % 2) (b % 2)
bit_xor-digits zero b = simp bit_xor-bitwise (omega arith)
bit_xor-digits (suc a) b = simp bit_xor-bitwise (spread_step differ a b)

zero-bit_or : (b : ℕ) → bit_or 0 b ≡ b
zero-bit_or b = bit_or-bitwise 0 b

zero-bit_xor : (b : ℕ) → bit_xor 0 b ≡ b
zero-bit_xor b = bit_xor-bitwise 0 b

-- The second number's digits count as well as the first's, by halving under a bound.
bit_or-zero_below : (n a : ℕ) → a ≤ n → bit_or a 0 ≡ a
bit_or-zero_below n zero h = refl
bit_or-zero_below zero (suc a) h = absurd (omega arith)
bit_or-zero_below (suc n) (suc a) h =
    omega (arith, bit_or-digits (suc a) 0, bit_or-zero_below n (suc a / 2) (omega arith))

pub bit_or-zero : (a : ℕ) → bit_or a 0 ≡ a
bit_or-zero a = bit_or-zero_below a a (omega arith)

bit_or-double : (q r : ℕ) → bit_or (q * 2) r ≡ bit_or q (r / 2) * 2 + r % 2
bit_or-double q r =
    let half : q * 2 / 2 ≡ q = omega arith in ground (arith, bit_or-digits (q * 2) r)

pub bit_or-shift : (k q r : ℕ) → r < 2 ^ k → bit_or (q * 2 ^ k) r ≡ q * 2 ^ k + r
bit_or-shift zero q r h = ground (arith, bit_or-zero q)
bit_or-shift (suc k) q r h =
    let twice : q * 2 ^ suc k ≡ q * 2 ^ k * 2 =
      omega (arith, ap (λ (t : ℕ). q * t) (pow-suc 2 k)) in
    rw twice (
      bit_or-double (q * 2 ^ k) r
      ∙ omega (arith, pow-suc 2 k, bit_or-shift k q (r / 2) (omega (arith, pow-suc 2 k))))

-- `(q << 6) | r`
pub bit_or-six : (q r : ℕ) → r < 64 → bit_or (q * 64) r ≡ q * 64 + r
bit_or-six = bit_or-shift 6

-- `a | b` is zero only if both are.
bit_or-eq-zero_below : (n a b : ℕ) → a ≤ n → bit_or a b ≡ 0 → (a ≡ 0) × (b ≡ 0)
bit_or-eq-zero_below n zero b h e = omega (arith, zero-bit_or b)
bit_or-eq-zero_below zero (suc a) b h e = absurd (omega arith)
bit_or-eq-zero_below (suc n) (suc a) b h e =
    let digits_zero : (bit_or (suc a / 2) (b / 2) ≡ 0) × (max (suc a % 2) (b % 2) ≡ 0) =
      omega (arith, bit_or-digits (suc a) b) in
    let halves = bit_or-eq-zero_below n (suc a / 2) (b / 2) (omega arith) digits_zero.0 in
    omega (arith)

pub bit_or-eq-zero : (a b : ℕ) → bit_or a b ≡ 0 → (a ≡ 0) × (b ≡ 0)
bit_or-eq-zero a b = bit_or-eq-zero_below a a b (omega arith)

differ_self : (x : ℕ) → differ x x ≡ 0
differ_self zero = refl
differ_self (suc x) = differ_self x

differ-eq-zero : (x y : ℕ) → differ x y ≡ 0 → x ≡ y
differ-eq-zero zero y e = sym e
differ-eq-zero (suc x) zero e = e
differ-eq-zero (suc x) (suc y) e = ap suc (differ-eq-zero x y e)

bit_xor_self_below : (n a : ℕ) → a ≤ n → bit_xor a a ≡ 0
bit_xor_self_below n zero h = refl
bit_xor_self_below zero (suc a) h = absurd (omega arith)
bit_xor_self_below (suc n) (suc a) h = omega (
  arith,
  bit_xor-digits (suc a) (suc a),
  differ_self (suc a % 2),
  bit_xor_self_below n (suc a / 2) (omega arith),
)

pub bit_xor_self : (a : ℕ) → bit_xor a a ≡ 0
bit_xor_self a = bit_xor_self_below a a (omega arith)

bit_xor-eq-zero_below : (n a b : ℕ) → a ≤ n → bit_xor a b ≡ 0 → a ≡ b
bit_xor-eq-zero_below n zero b h e = omega (arith, zero-bit_xor b)
bit_xor-eq-zero_below zero (suc a) b h e = absurd (omega arith)
bit_xor-eq-zero_below (suc n) (suc a) b h e =
    let digits_zero : (bit_xor (suc a / 2) (b / 2) ≡ 0) × (differ (suc a % 2) (b % 2) ≡ 0) =
      omega (arith, bit_xor-digits (suc a) b) in
    let halves = bit_xor-eq-zero_below n (suc a / 2) (b / 2) (omega arith) digits_zero.0 in
    let lowest = differ-eq-zero (suc a % 2) (b % 2) digits_zero.1 in omega arith

-- `a ^ b` is zero only if the two are the same.
pub bit_xor-eq-zero : (a b : ℕ) → bit_xor a b ≡ 0 → a ≡ b
bit_xor-eq-zero a b = bit_xor-eq-zero_below a a b (omega arith)

bit_and-digits_below :
    (n m a b : ℕ) → a ≤ n → a ≤ m → digits (λ _. 0) min n a b ≡ digits (λ _. 0) min m a b
bit_and-digits_below n m zero b h k = sym (none_left n) ∙ none_left m
  where
    none_left : (n : ℕ) → 0 ≡ digits (λ _. 0) min n 0 b
    none_left zero = refl
    none_left (suc n) = refl
bit_and-digits_below zero m (suc a) b h k = absurd (omega arith)
bit_and-digits_below (suc n) zero (suc a) b h k = absurd (omega arith)
bit_and-digits_below (suc n) (suc m) (suc a) b h k =
    ap (λ (q : ℕ). q * 2 + min (suc a % 2) (b % 2))
      (bit_and-digits_below n m (suc a / 2) (b / 2) (omega arith) (omega arith))

bit_and-digits : (a b : ℕ) → bit_and a b ≡ bit_and (a / 2) (b / 2) * 2 + min (a % 2) (b % 2)
bit_and-digits zero b = simp bit_and-bitwise (omega arith)
bit_and-digits (suc a) b = simp bit_and-bitwise (
    ap (λ (q : ℕ). q * 2 + min (suc a % 2) (b % 2))
      (bit_and-digits_below a (suc a / 2) (suc a / 2) (b / 2) (omega arith) (omega arith)))

-- An operation works on the lowest byte and on the others apart.
module _ (op : ℕ → ℕ → ℕ) (f : ℕ → ℕ → ℕ)
    (step : (a b : ℕ) → op a b ≡ op (a / 2) (b / 2) * 2 + f (a % 2) (b % 2))
    (none : op 0 0 ≡ 0) where
  op-split :
      (k x y X Y : ℕ)
      → x < 2 ^ k
      → y < 2 ^ k
      → op (x + 2 ^ k * X) (y + 2 ^ k * Y) ≡ op x y + 2 ^ k * op X Y
  op-split zero x y X Y hx hy =
      let ex : x ≡ 0 = omega arith in
      let ey : y ≡ 0 = omega arith in
      let eX : 0 + 1 * X ≡ X = omega arith in
      let eY : 0 + 1 * Y ≡ Y = omega arith in rw (ex, ey, none, eX, eY) (omega arith)
  op-split (suc k) x y X Y hx hy =
      let p = pow-suc 2 k in
      let twice : (Z : ℕ) → 2 ^ suc k * Z ≡ 2 * (2 ^ k * Z) =
        λ Z. omega (arith, ap (λ (t : ℕ). t * Z) p) in
      let tx = twice X in
      let ty = twice Y in
      let halfx : (x + 2 ^ suc k * X) / 2 ≡ x / 2 + 2 ^ k * X = omega arith in
      let halfy : (y + 2 ^ suc k * Y) / 2 ≡ y / 2 + 2 ^ k * Y = omega arith in
      let lowx : (x + 2 ^ suc k * X) % 2 ≡ x % 2 = omega arith in
      let lowy : (y + 2 ^ suc k * Y) % 2 ≡ y % 2 = omega arith in
      step (x + 2 ^ suc k * X) (y + 2 ^ suc k * Y)
      ∙ rw
          (
            halfx,
            halfy,
            lowx,
            lowy,
            op-split k (x / 2) (y / 2) X Y (omega (arith, p)) (omega (arith, p)),
          )
          (omega (arith, step x y, twice (op X Y)))

pub bit_and-byte :
    (x y X Y : ℕ)
    → x < 256
    → y < 256
    → bit_and (x + 256 * X) (y + 256 * Y) ≡ bit_and x y + 256 * bit_and X Y
bit_and-byte = op-split bit_and min bit_and-digits refl 8

pub bit_xor-byte :
    (x y X Y : ℕ)
    → x < 256
    → y < 256
    → bit_xor (x + 256 * X) (y + 256 * Y) ≡ bit_xor x y + 256 * bit_xor X Y
bit_xor-byte = op-split bit_xor differ bit_xor-digits refl 8

bit_and-le_below : (n a b : ℕ) → a ≤ n → bit_and a b ≤ a
bit_and-le_below n zero b h = omega (arith, bit_and-bitwise 0 b)
bit_and-le_below zero (suc a) b h = absurd (omega arith)
bit_and-le_below (suc n) (suc a) b h =
    omega (arith, bit_and-digits (suc a) b, bit_and-le_below n (suc a / 2) (b / 2) (omega arith))

pub bit_and-le : (a b : ℕ) → bit_and a b ≤ a
bit_and-le a b = bit_and-le_below a a b (omega arith)
