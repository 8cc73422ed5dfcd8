-- ===== src/Crypto/Sha256.antt =====
-- SHA-256 and HMAC-SHA256 of src/odio/crypto.cpp. A `uint32_t` sum is reduced modulo 2 ^ 32, and
-- `~e` is 2 ^ 32 - 1 - e.
pub mod Padding
use Prim.Native.Nat.{bit_and, bit_or, bit_xor}
use osodio.Prelude.{
  Bytes, ℕ, zero, suc, ◌+◌, ◌-◌, ◌*◌, ◌/◌, ◌%◌, ◌^◌, Bool, List, [], ◌∷◌, ◌++◌, map, length, take,
  drop, replicate, get_or, leb, ltb, if◌then◌else◌,
}
use mathlib.Core.List.{reverse}

abbrev u32 : ℕ
u32 = 2 ^ 32

-- `kK`
abbrev round_constants : List ℕ
round_constants =
    0x428a2f98 ∷ 0x71374491 ∷ 0xb5c0fbcf ∷ 0xe9b5dba5 ∷ 0x3956c25b ∷ 0x59f111f1 ∷ 0x923f82a4
    ∷ 0xab1c5ed5 ∷ 0xd807aa98 ∷ 0x12835b01 ∷ 0x243185be ∷ 0x550c7dc3 ∷ 0x72be5d74 ∷ 0x80deb1fe
    ∷ 0x9bdc06a7 ∷ 0xc19bf174 ∷ 0xe49b69c1 ∷ 0xefbe4786 ∷ 0x0fc19dc6 ∷ 0x240ca1cc ∷ 0x2de92c6f
    ∷ 0x4a7484aa ∷ 0x5cb0a9dc ∷ 0x76f988da ∷ 0x983e5152 ∷ 0xa831c66d ∷ 0xb00327c8 ∷ 0xbf597fc7
    ∷ 0xc6e00bf3 ∷ 0xd5a79147 ∷ 0x06ca6351 ∷ 0x14292967 ∷ 0x27b70a85 ∷ 0x2e1b2138 ∷ 0x4d2c6dfc
    ∷ 0x53380d13 ∷ 0x650a7354 ∷ 0x766a0abb ∷ 0x81c2c92e ∷ 0x92722c85 ∷ 0xa2bfe8a1 ∷ 0xa81a664b
    ∷ 0xc24b8b70 ∷ 0xc76c51a3 ∷ 0xd192e819 ∷ 0xd6990624 ∷ 0xf40e3585 ∷ 0x106aa070 ∷ 0x19a4c116
    ∷ 0x1e376c08 ∷ 0x2748774c ∷ 0x34b0bcb5 ∷ 0x391c0cb3 ∷ 0x4ed8aa4a ∷ 0x5b9cca4f ∷ 0x682e6ff3
    ∷ 0x748f82ee ∷ 0x78a5636f ∷ 0x84c87814 ∷ 0x8cc70208 ∷ 0x90befffa ∷ 0xa4506ceb ∷ 0xbef9a3f7
    ∷ 0xc67178f2 ∷ []

unfoldable pub rotr : ℕ → ℕ → ℕ
rotr x n = bit_or (x / 2 ^ n) (x * 2 ^ (32 - n) % 2 ^ 32)

pub record Hash : Type 0 where
  pub a : ℕ
  pub b : ℕ
  pub c : ℕ
  pub d : ℕ
  pub e : ℕ
  pub f : ℕ
  pub g : ℕ
  pub h : ℕ

-- The first sixteen words of the schedule: each from four bytes, the highest first.
words : Bytes → List ℕ
words (p ∷ q ∷ r ∷ s ∷ block) =
    bit_or (bit_or (bit_or (p * 2 ^ 24) (q * 2 ^ 16)) (r * 2 ^ 8)) s ∷ words block
words _ = []

-- `w[i]` for 16 ≤ i < 64; `w` holds the words so far, the last one first.
extend : ℕ → List ℕ → List ℕ
extend zero w = w
extend (suc rounds) w =
    let w15 = get_or w 14 0 in
    let w2 = get_or w 1 0 in
    let s0 = bit_xor (bit_xor (rotr w15 7) (rotr w15 18)) (w15 / 2 ^ 3) in
    let s1 = bit_xor (bit_xor (rotr w2 17) (rotr w2 19)) (w2 / 2 ^ 10) in
    extend rounds ((get_or w 15 0 + s0 + get_or w 6 0 + s1) % u32 ∷ w)

-- One of the 64 rounds.
round : Hash → ℕ → ℕ → Hash
round v k w =
    let S1 = bit_xor (bit_xor (rotr v.e 6) (rotr v.e 11)) (rotr v.e 25) in
    let ch = bit_xor (bit_and v.e v.f) (bit_and (u32 - 1 - v.e) v.g) in
    let temp1 = (v.h + S1 + ch + k + w) % u32 in
    let S0 = bit_xor (bit_xor (rotr v.a 2) (rotr v.a 13)) (rotr v.a 22) in
    let maj = bit_xor (bit_xor (bit_and v.a v.b) (bit_and v.a v.c)) (bit_and v.b v.c) in
    let temp2 = (S0 + maj) % u32 in
    record {
      a = (temp1 + temp2) % u32;
      b = v.a;
      c = v.b;
      d = v.c;
      e = (v.d + temp1) % u32;
      f = v.e;
      g = v.f;
      h = v.g;
    }

rounds : List ℕ → List ℕ → Hash → Hash
rounds (k ∷ ks) (w ∷ ws) v = rounds ks ws (round v k w)
rounds _ _ v = v

unfoldable pub compress : Hash → Bytes → Hash
unfolding words extend round rounds rotr
compress h block =
    let v = rounds round_constants (reverse (extend 48 (reverse (words block)))) h in
    record {
      a = (h.a + v.a) % u32;
      b = (h.b + v.b) % u32;
      c = (h.c + v.c) % u32;
      d = (h.d + v.d) % u32;
      e = (h.e + v.e) % u32;
      f = (h.f + v.f) % u32;
      g = (h.g + v.g) % u32;
      h = (h.h + v.h) % u32;
    }

abbrev pub initial : Hash
initial = record {
  a = 0x6a09e667;
  b = 0xbb67ae85;
  c = 0x3c6ef372;
  d = 0xa54ff53a;
  e = 0x510e527f;
  f = 0x9b05688c;
  g = 0x1f83d9ab;
  h = 0x5be0cd19;
}

-- `n` blocks of 64 bytes, from the start of `p`.
unfoldable pub compress_blocks : ℕ → Bytes → Hash → Hash
compress_blocks zero p h = h
compress_blocks (suc n) p h = compress_blocks n (drop 64 p) (compress h (take 64 p))

-- The length in bits, in eight bytes, the highest first.
unfoldable pub length_bytes : ℕ → Bytes
length_bytes len =
    let bits = len * 8 % 2 ^ 64 in
    bits / 2 ^ 56 % 256
    ∷ bits / 2 ^ 48 % 256
    ∷ bits / 2 ^ 40 % 256
    ∷ bits / 2 ^ 32 % 256
    ∷ bits / 2 ^ 24 % 256
    ∷ bits / 2 ^ 16 % 256
    ∷ bits / 2 ^ 8 % 256
    ∷ bits / 2 ^ 0 % 256
    ∷ []

-- `tail_len`
unfoldable pub tail_length : ℕ → ℕ
tail_length rest = if leb (rest + 1 + 8) 64 then 64 else 2 * 64

word_bytes : ℕ → Bytes
word_bytes w = w / 2 ^ 24 % 256 ∷ w / 2 ^ 16 % 256 ∷ w / 2 ^ 8 % 256 ∷ w % 256 ∷ []

unfoldable pub digest : Hash → Bytes
unfolding word_bytes
digest h =
    word_bytes h.a
    ++ (word_bytes h.b
        ++ (word_bytes h.c
            ++ (word_bytes h.d
                ++ (word_bytes h.e ++ (word_bytes h.f ++ (word_bytes h.g ++ word_bytes h.h))))))

unfoldable pub sha256 : Bytes → Bytes
sha256 p =
    let len = length p in
    let full = len / 64 in
    let rest = len % 64 in
    let tail_len = tail_length rest in
    let tail =
      drop (full * 64) p ++ (0x80 ∷ replicate (tail_len - rest - 9) 0 ++ length_bytes len) in
    digest (compress_blocks (tail_len / 64) tail (compress_blocks full p initial))

-- `k` after `k = sha256(k)` for a long key and `k.resize(kBlock, 0)`.
unfoldable pub hmac_key : Bytes → Bytes
hmac_key key =
    let k = if ltb 64 (length key) then sha256 key else key in
    take 64 k ++ replicate (64 - length k) 0

unfoldable pub hmac_sha256 : Bytes → Bytes → Bytes
hmac_sha256 key message =
    let k = hmac_key key in
    sha256 (map (λ c. bit_xor c 0x5c) k ++ sha256 (map (λ c. bit_xor c 0x36) k ++ message))
