-- ===== src/WebSocket/Sha1/Padding.antt =====
-- The padding of SHA-1 in include/lohin/websocket.hpp.
use osodio.Prelude.{
  Bytes, ℕ, zero, suc, ◌+◌, ◌-◌, ◌*◌, ◌%◌, ◌^◌, ◌≤◌, ◌≡◌, ◌∷◌, ◌++◌, ◌==◌, length, length-append,
  arith, Bool-cases, inl, inr,
}
use osodio.WebSocket.Frame.{size_bytes}
use osodio.WebSocket.Sha1.{zero_padding, padded_message}

length-zero_padding :
    (rounds size left : ℕ)
    → left ≤ rounds
    → (size + left) % 64 ≡ 56
    → (size + length (zero_padding rounds size)) % 64 ≡ 56
unfolding zero_padding
length-zero_padding zero size left h e = omega arith
length-zero_padding (suc rounds) size left h e = elim (Bool-cases (size % 64 == 56)) [
  | inl f ↦ rw f (ground arith)
  | inr f ↦
      let next = length-zero_padding rounds (suc size) (left - 1) (omega arith) (ground arith) in
      rw f (omega (arith, next))
]

-- The loop that pads ends within 64 rounds, and the padded message is a whole number of blocks.
pub length-padded_message : (msg : Bytes) → length (padded_message msg) % 64 ≡ 0
unfolding padded_message size_bytes
length-padded_message msg =
    let size = length msg + 1 in
    let zeros = length-zero_padding 64 size ((120 - size % 64) % 64) (omega arith) (omega arith) in
    let bits = size_bytes 8 (length msg * 8 % 2 ^ 64) in
    omega (
      arith,
      zeros,
      length-append msg (0x80 ∷ (zero_padding 64 size ++ bits)),
      length-append (zero_padding 64 size) bits,
    )
