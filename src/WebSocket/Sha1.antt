-- ===== src/WebSocket/Sha1.antt =====
-- SHA-1 of include/lohin/websocket.hpp. A `uint32_t` is a number with its wrap-around written out.
pub mod Padding
use Prim.Native.Nat.{bit_and, bit_or, bit_xor}
use mathlib.Core.List.{reverse}
use osodio.Prelude.{
  Bytes, ℕ, zero, suc, ◌+◌, ◌-◌, ◌*◌, ◌/◌, ◌%◌, ◌^◌, List, [], ◌∷◌, ◌++◌, ltb, ◌==◌, if◌then◌else◌,
  length, take, drop, get_or,
}
use osodio.WebSocket.Frame.{size_bytes}

abbrev u32 : ℕ
u32 = 2 ^ 32

-- `(x << n) | (x >> (32 - n))`
unfoldable pub rotl : ℕ → ℕ → ℕ
rotl x n = bit_or (x * 2 ^ n % u32) (x / 2 ^ (32 - n))

pub record Sha1State : Type 0 where
  pub a : ℕ
  pub b : ℕ
  pub c : ℕ
  pub d : ℕ
  pub e : ℕ

-- The first sixteen words, each from four bytes, the highest first.
unfoldable pub block_words : Bytes → List ℕ
block_words (p ∷ q ∷ r ∷ s ∷ blk) =
    bit_or (bit_or (bit_or (p * 2 ^ 24) (q * 2 ^ 16)) (r * 2 ^ 8)) s ∷ block_words blk
block_words _ = []

-- `w[i]` for 16 ≤ i < 80; `w` holds the words so far, the last one first.
unfoldable pub more_words : ℕ → List ℕ → List ℕ
more_words zero w = w
more_words (suc rounds) w =
    let t =
      bit_xor (bit_xor (bit_xor (get_or w 2 0) (get_or w 7 0)) (get_or w 13 0)) (get_or w 15 0) in
    more_words rounds (rotl t 1 ∷ w)

abbrev complement : ℕ → ℕ
complement x = u32 - 1 - x

-- `f` and `k` of round `i`.
unfoldable pub round_function : ℕ → Sha1State → ℕ × ℕ
round_function i s =
    if ltb i 20
    then (bit_or (bit_and s.b s.c) (bit_and (complement s.b) s.d), 0x5A827999)
    else if ltb i 40
    then (bit_xor (bit_xor s.b s.c) s.d, 0x6ED9EBA1)
    else if ltb i 60
    then (bit_or (bit_or (bit_and s.b s.c) (bit_and s.b s.d)) (bit_and s.c s.d), 0x8F1BBCDC)
    else (bit_xor (bit_xor s.b s.c) s.d, 0xCA62C1D6)

-- The rounds from `i` on, one for each word.
unfoldable pub sha1_rounds : ℕ → List ℕ → Sha1State → Sha1State
sha1_rounds i [] s = s
sha1_rounds i (w ∷ ws) s =
    let fk = round_function i s in
    let tmp = (rotl s.a 5 + fk.0 + s.e + fk.1 + w) % u32 in
    sha1_rounds (suc i) ws (record { a = tmp; b = s.a; c = rotl s.b 30; d = s.c; e = s.d })

unfoldable pub sha1_compress : Sha1State → Bytes → Sha1State
sha1_compress s blk =
    let v = sha1_rounds 0 (reverse (more_words 64 (reverse (block_words blk)))) s in
    record {
      a = (s.a + v.a) % u32;
      b = (s.b + v.b) % u32;
      c = (s.c + v.c) % u32;
      d = (s.d + v.d) % u32;
      e = (s.e + v.e) % u32;
    }

-- `while (p.size()%64 != 56) p += char(0);` from a size on; 64 rounds are enough.
unfoldable pub zero_padding : ℕ → ℕ → Bytes
zero_padding zero size = []
zero_padding (suc rounds) size =
    let rest = zero_padding rounds (suc size) in if size % 64 == 56 then [] else 0 ∷ rest

-- `p`
unfoldable pub padded_message : Bytes → Bytes
padded_message msg =
    msg ++ 0x80 ∷ (zero_padding 64 (length msg + 1) ++ size_bytes 8 (length msg * 8 % 2 ^ 64))

-- `n` blocks of 64 bytes.
unfoldable pub sha1_blocks : ℕ → Bytes → Sha1State → Sha1State
sha1_blocks zero p s = s
sha1_blocks (suc n) p s = sha1_blocks n (drop 64 p) (sha1_compress s (take 64 p))

unfoldable pub sha1 : Bytes → Bytes
sha1 msg =
    let p = padded_message msg in
    let h =
      sha1_blocks (length p / 64) p (record {
        a = 0x67452301;
        b = 0xEFCDAB89;
        c = 0x98BADCFE;
        d = 0x10325476;
        e = 0xC3D2E1F0;
      }) in
    size_bytes 4 h.a
    ++ (size_bytes 4 h.b ++ (size_bytes 4 h.c ++ (size_bytes 4 h.d ++ size_bytes 4 h.e)))
