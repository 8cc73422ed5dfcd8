-- ===== src/WebSocket/Handshake.antt =====
-- The accept key of include/lohin/websocket.hpp.
use Prim.Native.Nat.{bit_or}
use osodio.Bits.{bit_or-zero}
use osodio.Prelude.{Bytes, bytes, ℕ, ◌*◌, ◌^◌, ◌≡◌, refl, [], ◌∷◌, ◌++◌}
use osodio.Crypto.Base64.{letter, std_alphabet, base64_encode, pack}
use osodio.WebSocket.Sha1.{sha1}

-- The three bytes of a round, with 0 for those behind the end.
abbrev pub triple : ℕ → ℕ → ℕ → ℕ
triple a b c = bit_or (bit_or (a * 2 ^ 16) b) c

-- `t[]`
unfoldable pub base64_table : Bytes
base64_table = bytes "ABCDEFGHIJKLMNOPQRSTUVWXYZabcdefghijklmnopqrstuvwxyz0123456789+/"

unfoldable pub base64 : Bytes → Bytes
base64 [] = []
base64 (a ∷ []) =
    let b = triple a 0 0 in letter base64_table b 18 ∷ letter base64_table b 12 ∷ b'=' ∷ b'=' ∷ []
base64 (a ∷ a₁ ∷ []) =
    let b = triple a (a₁ * 2 ^ 8) 0 in
    letter base64_table b 18 ∷ letter base64_table b 12 ∷ letter base64_table b 6 ∷ b'=' ∷ []
base64 (a ∷ a₁ ∷ a₂ ∷ d) =
    let b = triple a (a₁ * 2 ^ 8) a₂ in
    letter base64_table b 18
    ∷ letter base64_table b 12
    ∷ letter base64_table b 6
    ∷ letter base64_table b 0
    ∷ base64 d

unfoldable pub ws_accept : Bytes → Bytes
ws_accept client_key = base64 (sha1 (client_key ++ bytes "258EAFA5-E914-47DA-95CA-C5AB0DC85B11"))

-- The base64 of the handshake, which reads zeros behind the end, is the one of the cryptographic
-- functions, which has a case of its own for each rest.
pub base64-base64_encode : (d : Bytes) → base64 d ≡ base64_encode d
unfolding base64 base64_table base64_encode std_alphabet pack
base64-base64_encode [] = refl
base64-base64_encode (a ∷ []) =
    rw (bit_or-zero (bit_or (a * 2 ^ 16) 0), bit_or-zero (a * 2 ^ 16)) refl
base64-base64_encode (a ∷ a₁ ∷ []) = rw (bit_or-zero (bit_or (a * 2 ^ 16) (a₁ * 2 ^ 8))) refl
base64-base64_encode (a ∷ a₁ ∷ a₂ ∷ d) = rw (base64-base64_encode d) refl
