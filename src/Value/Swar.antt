-- ===== src/Value/Swar.antt =====
-- The tests of src/odio/value.cpp that look at eight bytes of a text at once, as one `uint64_t`.
use Prim.Native.Nat.{bit_and, bit_or, bit_xor}
use osodio.Bits.{bit_and-le, bit_and-byte, bit_xor-byte, bit_or-eq-zero, bit_xor_self}
use osodio.Prelude.{
  Bytes, IsByte, ℕ, zero, suc, ◌+◌, ◌-◌, ◌*◌, ◌/◌, ◌%◌, ◌^◌, ◌≤◌, ◌<◌, ◌≡◌, ◌≢◌, refl, Bool, true,
  false, not, [], ◌∷◌, map, length, All, leb, ltb, ◌==◌, if◌then◌else◌, arith, all_below,
  all_below-lt, ap, ◌∙◌,
}

-- The bytes that a `memcpy` into a word puts there: the first is the lowest.
unfoldable pub word : Bytes → ℕ
word [] = 0
word (c ∷ s) = c + 256 * word s

-- `uint64_t` subtraction and complement.
abbrev sub64 : ℕ → ℕ → ℕ
sub64 a b = (a + 2 ^ 64 - b) % 2 ^ 64

abbrev not64 : ℕ → ℕ
not64 w = 2 ^ 64 - 1 - w

abbrev unos : ℕ
unos = 0x0101010101010101

abbrev altos : ℕ
altos = 0x8080808080808080

-- `bloque_sucio`: whether one of the eight bytes needs an escape.
unfoldable pub bloque_sucio : ℕ → Bool
bloque_sucio w =
    let menor_20 = bit_and (bit_and (sub64 w (unos * 0x20)) (not64 w)) altos in
    let c1 = bit_xor w (unos * 0x22) in
    let c2 = bit_xor w (unos * 0x5C) in
    not (
      bit_or (bit_or menor_20 (bit_and (bit_and (sub64 c1 unos) (not64 c1)) altos))
        (bit_and (bit_and (sub64 c2 unos) (not64 c2)) altos)
      == 0)

-- `!(w & 0x8080808080808080)`: the eight bytes are ASCII.
unfoldable pub bloque_ascii : ℕ → Bool
bloque_ascii w = bit_and w altos == 0

-- A word of `n` bytes that are all `k`, and its subtraction.
repeated : ℕ → ℕ → ℕ
repeated k zero = 0
repeated k (suc n) = k + 256 * repeated k n

values : ℕ → ℕ
values zero = 1
values (suc n) = 256 * values n

abbrev sub_words : ℕ → ℕ → ℕ → ℕ
sub_words n a b = if leb b a then a - b else a + values n - b

-- The test on one byte: its result is 0 only if the byte is at least `k`.
abbrev flags : ℕ → ℕ → ℕ
flags k b = bit_and (bit_and ((b + 256 - k) % 256) (255 - b)) 0x80

abbrev flags_low : ℕ → Bool
flags_low k = all_below 256 (λ b. if leb k b then true else not (flags k b == 0))

module _ (k : ℕ) (small : k < 256) (table : flags_low k ≡ true) where
  word-lt : (s : Bytes) → All IsByte s → word s < values (length s)
  unfolding word values
  word-lt [] h = omega arith
  word-lt (b ∷ s) (hb, h) = omega (arith, word-lt s h)

  repeated-lt : (n : ℕ) → repeated k n < values n
  unfolding repeated values
  repeated-lt zero = omega arith
  repeated-lt (suc n) = omega (arith, repeated-lt n)

  -- The lowest byte and the others of the test.
  split_byte :
      (x X R b : ℕ)
      → b < 256
      → bit_and (bit_and x (255 - b + 256 * X)) (0x80 + 256 * R) ≡ 0
      → (bit_and (bit_and (x % 256) (255 - b)) 0x80 ≡ 0) × (bit_and (bit_and (x / 256) X) R ≡ 0)
  split_byte x X R b hb e =
      let parts : x ≡ x % 256 + 256 * (x / 256) = omega arith in
      let inner : bit_and x (255 - b + 256 * X)
          ≡ bit_and (x % 256) (255 - b) + 256 * bit_and (x / 256) X =
        ap (λ t. bit_and t (255 - b + 256 * X)) parts
        ∙ bit_and-byte (x % 256) (255 - b) (x / 256) X (omega arith) (omega arith) in
      omega (
        arith,
        rw inner at e,
        bit_and-byte (bit_and (x % 256) (255 - b)) 0x80 (bit_and (x / 256) X) R
            (omega (arith, bit_and-le (x % 256) (255 - b))) (omega arith),
      )

  at_least :
      (s : Bytes)
      → All IsByte s
      → bit_and
          (bit_and
            (sub_words (length s) (word s) (repeated k (length s)))
            (values (length s) - 1 - word s))
          (repeated 0x80 (length s))
        ≡ 0
      → All (λ b. k ≤ b) s
  unfolding word values repeated
  at_least [] h e = tt
  at_least (b ∷ s) (hb, h) e =
      let n = length s in
      let x = sub_words (suc n) (word (b ∷ s)) (repeated k (suc n)) in
      let w = word-lt s h in
      let r = repeated-lt n in
      let low : x % 256 ≡ (b + 256 - k) % 256 = ground arith in
      let complement : 256 * values n - 1 - (b + 256 * word s)
          ≡ 255 - b + 256 * (values n - 1 - word s) =
        omega arith in
      let (here, later) =
        split_byte x (values n - 1 - word s) (repeated 0x80 n) b hb (rw complement at e) in
      let first : k ≤ b = ground (
        arith,
        all_below-lt 256 (λ b. if leb k b then true else not (flags k b == 0)) b hb table,
        rw low at here,
      ) in
      let high : x / 256 ≡ sub_words n (word s) (repeated k n) = ground arith in
      (first, at_least s h (rw high at later))

-- The test on a word of eight bytes.
word_at_least :
    (k : ℕ)
    → k < 256
    → flags_low k ≡ true
    → (s : Bytes) → length s ≡ 8
    → All IsByte s
    → bit_and (bit_and (sub64 (word s) (repeated k 8)) (not64 (word s))) altos ≡ 0
    → All (λ b. k ≤ b) s
unfolding repeated values
word_at_least k small table s eight h e =
    let fits : word s < 2 ^ 64 = rw eight at (word-lt k small table s h) in
    let r : repeated k 8 < 2 ^ 64 = repeated-lt k small table 8 in
    let same : sub64 (word s) (repeated k 8) ≡ sub_words 8 (word s) (repeated k 8) = ground arith in
    at_least k small table s h (rw eight (rw same at e))

flags_low_space : flags_low 0x20 ≡ true
unfolding all_below
flags_low_space = refl

flags_low_one : flags_low 1 ≡ true
unfolding all_below
flags_low_one = refl

bit_xor-repeated :
    (k : ℕ) (s : Bytes)
    → k < 256
    → All IsByte s
    → bit_xor (word s) (repeated k (length s)) ≡ word (map (λ c. bit_xor c k) s)
unfolding word repeated
bit_xor-repeated k [] hk h = refl
bit_xor-repeated k (c ∷ s) hk (hc, h) =
    bit_xor-byte c k (word s) (repeated k (length s)) hc hk
    ∙ ap (λ w. bit_xor c k + 256 * w) (bit_xor-repeated k s hk h)

-- None of the bytes is the one that the word was compared with.
differs : (k : ℕ) (s : Bytes) → All (λ b. 1 ≤ b) (map (λ c. bit_xor c k) s) → All (λ c. c ≢ k) s
differs k [] h = tt
differs k (c ∷ s) (p, h) =
    ((λ e. absurd (omega (arith, bit_xor_self k, ap (λ x. bit_xor x k) e))), differs k s h)

map-IsByte :
    (k : ℕ)
    → all_below 256 (λ c. ltb (bit_xor c k) 256) ≡ true
    → (s : Bytes) → All IsByte s
    → All IsByte (map (λ c. bit_xor c k) s)
map-IsByte k table [] h = tt
map-IsByte k table (c ∷ s) (hc, h) = (
  ground (arith, all_below-lt 256 (λ c. ltb (bit_xor c k) 256) c hc table),
  map-IsByte k table s h,
)

length-map : (f : ℕ → ℕ) (s : Bytes) → length (map f s) ≡ length s
length-map f [] = refl
length-map f (c ∷ s) = ap suc (length-map f s)

word_differs :
    (k : ℕ)
    → k < 256
    → all_below 256 (λ c. ltb (bit_xor c k) 256) ≡ true
    → (s : Bytes) → length s ≡ 8
    → All IsByte s
    → bit_and
        (bit_and
          (sub64 (bit_xor (word s) (repeated k 8)) (repeated 1 8))
          (not64 (bit_xor (word s) (repeated k 8))))
        altos
      ≡ 0
    → All (λ c. c ≢ k) s
word_differs k small table s eight h e =
    let mapped : bit_xor (word s) (repeated k 8) ≡ word (map (λ c. bit_xor c k) s) =
      rw eight at (bit_xor-repeated k s small h) in
    differs k s (
      word_at_least 1 (omega arith) flags_low_one (map (λ c. bit_xor c k) s)
        (length-map (λ c. bit_xor c k) s ∙ eight) (map-IsByte k table s h) (rw mapped at e))

-- A byte that a JSON string carries as it is.
abbrev pub IsClean : ℕ → Type 0
IsClean c = (0x20 ≤ c) × (c ≢ b'"') × (c ≢ 0x5C)

All-IsClean :
    (s : Bytes)
    → All (λ b. 0x20 ≤ b) s
    → All (λ c. c ≢ b'"') s
    → All (λ c. c ≢ 0x5C) s
    → All IsClean s
All-IsClean [] a b c = tt
All-IsClean (x ∷ s) (a, as') (b, bs) (c, cs) = ((a, b, c), All-IsClean s as' bs cs)

xor_quote : all_below 256 (λ c. ltb (bit_xor c b'"') 256) ≡ true
unfolding all_below
xor_quote = refl

xor_slash : all_below 256 (λ c. ltb (bit_xor c 0x5C) 256) ≡ true
unfolding all_below
xor_slash = refl

abbrev flag : ℕ → ℕ → ℕ
flag w b = bit_and (bit_and (sub64 w b) (not64 w)) altos

unset : (n : ℕ) → not (n == 0) ≡ false → n ≡ 0
unset n h = ground arith

-- A block that passes the test on eight bytes at once has no byte to escape.
pub bloque_sucio-IsClean :
    (s : Bytes) → length s ≡ 8 → All IsByte s → bloque_sucio (word s) ≡ false → All IsClean s
unfolding bloque_sucio repeated
bloque_sucio-IsClean s eight h clean =
    let space = flag (word s) (unos * 0x20) in
    let quote = bit_xor (word s) (repeated b'"' 8) in
    let slash = bit_xor (word s) (repeated 0x5C 8) in
    let none_set = unset (bit_or (bit_or space (flag quote unos)) (flag slash unos)) clean in
    let two = bit_or-eq-zero (bit_or space (flag quote unos)) (flag slash unos) none_set in
    let three = bit_or-eq-zero space (flag quote unos) two.0 in
    All-IsClean s (word_at_least 0x20 (omega arith) flags_low_space s eight h three.0)
      (word_differs b'"' (omega arith) xor_quote s eight h three.1)
      (word_differs 0x5C (omega arith) xor_slash s eight h two.1)

ascii_low : all_below 256 (λ b. if bit_and b 0x80 == 0 then ltb b 0x80 else true) ≡ true
unfolding all_below
ascii_low = refl

-- A block whose high bits are all clear is ASCII.
bit_and-repeated :
    (s : Bytes)
    → All IsByte s
    → bit_and (word s) (repeated 0x80 (length s)) ≡ 0
    → All (λ c. c < 0x80) s
unfolding word repeated
bit_and-repeated [] h e = tt
bit_and-repeated (c ∷ s) (hc, h) e =
    let parts = bit_and-byte c 0x80 (word s) (repeated 0x80 (length s)) hc (omega arith) in
    let here : bit_and c 0x80 ≡ 0 = omega arith in
    let table =
      all_below-lt 256 (λ b. if bit_and b 0x80 == 0 then ltb b 0x80 else true) c hc ascii_low in
    (ground (arith, table), bit_and-repeated s h (omega arith))

pub bloque_ascii-lt :
    (s : Bytes) → length s ≡ 8 → All IsByte s → bloque_ascii (word s) ≡ true → All (λ c. c < 0x80) s
unfolding bloque_ascii repeated
bloque_ascii-lt s eight h e = bit_and-repeated s h (rw eight (ground arith))
