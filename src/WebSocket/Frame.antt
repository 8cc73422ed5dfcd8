-- ===== src/WebSocket/Frame.antt =====
-- `build_frame` and the masks of include/lohin/websocket.hpp. The bits of a byte are taken by
-- division.
use Prim.Native.Nat.{bit_or, bit_xor}
use osodio.Prelude.{
  Bytes, ℕ, zero, suc, ◌*◌, ◌/◌, ◌%◌, ◌^◌, Bool, [], ◌∷◌, ◌++◌, ltb, if◌then◌else◌, length, get_or,
}

-- `payload.size() >> (i * 8)` as a byte, for the `k` lowest bytes, the high one first.
unfoldable pub size_bytes : ℕ → ℕ → Bytes
size_bytes zero n = []
size_bytes (suc k) n = (n / 2 ^ (8 * k) % 256) ∷ size_bytes k n

unfoldable pub size_field : ℕ → Bytes
size_field n =
    if ltb n 126 then n ∷ [] else if ltb n 65536 then 126 ∷ size_bytes 2 n else 127 ∷ size_bytes 8 n

unfoldable pub build_frame : Bytes → ℕ → Bool → Bytes
build_frame payload opcode fin =
    bit_or (if fin then 0x80 else 0) opcode ∷ (size_field (length payload) ++ payload)

-- `payload[i] ^= mask_key[i % 4]`, from position `i` on.
unfoldable pub unmask : Bytes → ℕ → Bytes → Bytes
unmask mask_key i [] = []
unmask mask_key i (c ∷ payload) =
    bit_xor c (get_or mask_key (i % 4) 0) ∷ unmask mask_key (suc i) payload
