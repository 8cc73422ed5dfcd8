-- ===== src/Crypto/Base64.antt =====
-- base64url and base64 of src/odio/crypto.cpp. `& 0x3F` and `& 0xFF` are remainders, a right shift
-- is a quotient, and a `uint32_t` shifted left is reduced modulo 2 ^ 32.
pub mod RoundTrip
use Prim.Native.Nat.{bit_or}
use osodio.Prelude.{
  Bytes, bytes, ℕ, ◌+◌, ◌-◌, ◌*◌, ◌/◌, ◌%◌, ◌^◌, Bool, true, false, ◌&&◌, Option, none, some, List,
  [], ◌∷◌, ◌++◌, get_or, leb, ◌==◌, if◌then◌else◌,
}

-- `kAlphabet`
unfoldable pub alphabet : Bytes
alphabet = bytes "ABCDEFGHIJKLMNOPQRSTUVWXYZabcdefghijklmnopqrstuvwxyz0123456789-_"

-- `kStd`
unfoldable pub std_alphabet : Bytes
std_alphabet = bytes "ABCDEFGHIJKLMNOPQRSTUVWXYZabcdefghijklmnopqrstuvwxyz0123456789+/"

-- `kAlphabet[(v >> k) & 0x3F]`
unfoldable pub letter : Bytes → ℕ → ℕ → ℕ
letter table v k = get_or table (v / 2 ^ k % 64) 0

-- Three bytes as the number `v`.
unfoldable pub pack : ℕ → ℕ → ℕ → ℕ
pack a b c = bit_or (bit_or (a * 2 ^ 16) (b * 2 ^ 8)) c

unfoldable pub base64url_encode : Bytes → Bytes
base64url_encode (a ∷ b ∷ c ∷ raw) =
    let v = pack a b c in
    letter alphabet v 18
    ∷ letter alphabet v 12
    ∷ letter alphabet v 6
    ∷ letter alphabet v 0
    ∷ base64url_encode raw
base64url_encode (a ∷ b ∷ []) =
    let v = bit_or (a * 2 ^ 16) (b * 2 ^ 8) in
    letter alphabet v 18 ∷ letter alphabet v 12 ∷ letter alphabet v 6 ∷ []
base64url_encode (a ∷ []) = let v = a * 2 ^ 16 in letter alphabet v 18 ∷ letter alphabet v 12 ∷ []
base64url_encode [] = []

unfoldable pub base64_encode : Bytes → Bytes
base64_encode (a ∷ b ∷ c ∷ raw) =
    let v = pack a b c in
    letter std_alphabet v 18
    ∷ letter std_alphabet v 12
    ∷ letter std_alphabet v 6
    ∷ letter std_alphabet v 0
    ∷ base64_encode raw
base64_encode (a ∷ b ∷ []) =
    let v = bit_or (a * 2 ^ 16) (b * 2 ^ 8) in
    letter std_alphabet v 18 ∷ letter std_alphabet v 12 ∷ letter std_alphabet v 6 ∷ b'=' ∷ []
base64_encode (a ∷ []) =
    let v = a * 2 ^ 16 in letter std_alphabet v 18 ∷ letter std_alphabet v 12 ∷ b'=' ∷ b'=' ∷ []
base64_encode [] = []

-- `none` stands for -1.
unfoldable pub decode_char : ℕ → Option ℕ
decode_char c =
    if leb b'A' c && leb c b'Z'
    then some (c - b'A')
    else if leb b'a' c && leb c b'z'
    then some (c - b'a' + 26)
    else if leb b'0' c && leb c b'9'
    then some (c - b'0' + 52)
    else if c == b'-'
    then some 62
    else if c == b'_'
    then some 63
    else none

abbrev pub push : ℕ → Option Bytes → Option Bytes
push c none = none
push c (some out) = some (c ∷ out)

-- A byte of output once eight bits are pending; `rest` is the loop over the text that remains.
abbrev pub drain : Bool → ℕ → ℕ → (ℕ → ℕ → Option Bytes) → Option Bytes
drain true acc bits rest = push (acc / 2 ^ (bits - 8) % 256) (rest acc (bits - 8))
drain false acc bits rest = rest acc bits

-- One round of the loop, by whether the character is '=' and by its value.
abbrev pub take_char : Bool → Option ℕ → ℕ → ℕ → (ℕ → ℕ → Option Bytes) → Option Bytes
take_char true d acc bits rest = some []
take_char false none acc bits rest = none
take_char false (some d) acc bits rest =
    drain (leb 8 (bits + 6)) (bit_or (acc * 64 % 2 ^ 32) d) (bits + 6) rest

-- The loop of `base64url_decode`, from the state of `acc` and `bits` on; `none` stands for `false`.
unfoldable pub decode_from : Bytes → ℕ → ℕ → Option Bytes
decode_from [] acc bits = some []
decode_from (c ∷ text) acc bits = take_char (c == b'=') (decode_char c) acc bits (decode_from text)

unfoldable pub base64url_decode : Bytes → Option Bytes
base64url_decode text = decode_from text 0 0
