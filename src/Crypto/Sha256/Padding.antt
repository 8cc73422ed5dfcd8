-- ===== src/Crypto/Sha256/Padding.antt =====
-- `sha256` of src/odio/crypto.cpp against FIPS 180-4: the code hashes the whole blocks where they
-- lie and pads only the tail; the standard pads the message and then hashes its blocks.
use Prim.Native.Nat.add
use osodio.Prelude.{
  Bytes, ℕ, zero, suc, ◌+◌, ◌-◌, ◌*◌, ◌/◌, ◌%◌, ◌≡◌, ◌≤◌, refl, ◌∷◌, ◌++◌, length, take, drop,
  replicate, length-append, length-replicate, length-drop, take-append, drop-append, drop-drop,
  arith,
}
use osodio.Crypto.Sha256.{
  Hash, compress, compress_blocks, initial, length_bytes, tail_length, digest, sha256,
}

-- A one, the fewest zeros that fill the last block, and the length (FIPS 180-4, 5.1.1), in bytes.
abbrev pub padding : ℕ → Bytes
padding len = 0x80 ∷ replicate ((119 - len % 64) % 64) 0 ++ length_bytes len

abbrev pub padded : Bytes → Bytes
padded p = p ++ padding (length p)

blocks_step :
    (n : ℕ) (p : Bytes) (h : Hash)
    → compress_blocks (suc n) p h ≡ compress_blocks n (drop 64 p) (compress h (take 64 p))
unfolding compress_blocks
blocks_step n p h = refl

blocks-append :
    (n m : ℕ) (p q : Bytes) (h : Hash)
    → n * 64 ≤ length p
    → compress_blocks (n + m) (p ++ q) h
      ≡ compress_blocks m (drop (n * 64) p ++ q) (compress_blocks n p h)
blocks-append zero m p q h k = unfold compress_blocks in rw add.zero
blocks-append (suc n) m p q h k =
    let start : 64 ≤ length p = omega arith in
    let more : suc n * 64 ≡ 64 + n * 64 = omega arith in
    rw
      (
        add.suc,
        blocks_step (n + m) (p ++ q),
        take-append 64 p q start,
        drop-append 64 p q start,
        more,
        ← drop-drop 64 (n * 64) p,
        blocks_step n p,
      )
      (blocks-append n m (drop 64 p) q (compress h (take 64 p)) (omega (arith, length-drop 64 p)))

length-padding : (len : ℕ) → length (padding len) ≡ 9 + (119 - len % 64) % 64
unfolding length_bytes
length-padding len = omega (
  arith,
  length-append (replicate ((119 - len % 64) % 64) 0) (length_bytes len),
  length-replicate {A = ℕ} ((119 - len % 64) % 64) 0,
)

-- The padded message is a whole number of blocks, and hashing them one after another is what the
-- code computes.
pub sha256-padded :
    (p : Bytes)
    → (length (padded p) % 64 ≡ 0)
      × (sha256 p ≡ digest (compress_blocks (length (padded p) / 64) (padded p) initial))
unfolding sha256 tail_length
sha256-padded p = (
  omega (arith, total),
  ground (
    arith,
    total,
    blocks-append (length p / 64) (tail_length (length p % 64) / 64) p (padding (length p)) initial
        (omega arith),
  ),
)
  where
    total : length (padded p) ≡ length p + (9 + (119 - length p % 64) % 64)
    total = omega (arith, length-append p (padding (length p)), length-padding (length p))
