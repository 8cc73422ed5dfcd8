-- ===== src/Crypto/Tests.antt =====
-- Runs of the cryptographic functions on the vectors of src/odio/tools/crypto_check.cpp.
use osodio.Prelude.{
  ◌↔◌, length, ◌%◌, ◌/◌, arith, Bytes, bytes, ◌≡◌, refl, none, some, [], ◌∷◌, true,
}
use osodio.Crypto.Compare.{constant_time_equal, constant_time_equal_iff}
use osodio.Crypto.Base64.RoundTrip.{base64url_decode-encode}
use osodio.Crypto.Sha256.Padding.{padded, sha256-padded}
use osodio.Crypto.Base64.{
  alphabet, std_alphabet, letter, pack, base64url_encode, base64_encode, decode_char, decode_from,
  base64url_decode,
}
use osodio.Crypto.Sha256.{
  compress, compress_blocks, initial, length_bytes, tail_length, digest, sha256, hmac_key,
  hmac_sha256,
}

crypto : Unit {0}
unfolding alphabet std_alphabet letter pack base64url_encode base64_encode decode_char decode_from
    base64url_decode compress compress_blocks length_bytes tail_length digest sha256 hmac_key
    hmac_sha256
crypto = tt

encode_a : base64url_encode (bytes "a") ≡ bytes "YQ"
unfolding crypto
encode_a = refl

encode_padded : base64_encode (bytes "a") ≡ bytes "YQ=="
unfolding crypto
encode_padded = refl

encode_url_safe : base64url_encode (0xfb ∷ 0xff ∷ []) ≡ bytes "-_8"
unfolding crypto
encode_url_safe = refl

decode_bad : base64url_decode (bytes "a+") ≡ none
unfolding crypto
decode_bad = refl

abbrev abc_digest : Bytes
abc_digest =
    0xba ∷ 0x78 ∷ 0x16 ∷ 0xbf ∷ 0x8f ∷ 0x01 ∷ 0xcf ∷ 0xea ∷ 0x41 ∷ 0x41 ∷ 0x40 ∷ 0xde ∷ 0x5d ∷ 0xae
    ∷ 0x22 ∷ 0x23 ∷ 0xb0 ∷ 0x03 ∷ 0x61 ∷ 0xa3 ∷ 0x96 ∷ 0x17 ∷ 0x7a ∷ 0x9c ∷ 0xb4 ∷ 0x10 ∷ 0xff
    ∷ 0x61 ∷ 0xf2 ∷ 0x00 ∷ 0x15 ∷ 0xad ∷ []

sha256_abc : sha256 (bytes "abc") ≡ abc_digest
unfolding crypto
sha256_abc = refl

base64url_decode-encode_example :
    base64url_decode (base64url_encode (0xfb ∷ 0xff ∷ 0 ∷ 7 ∷ [])) ≡ some (0xfb ∷ 0xff ∷ 0 ∷ 7 ∷ [])
base64url_decode-encode_example = base64url_decode-encode (0xfb ∷ 0xff ∷ 0 ∷ 7 ∷ []) (omega arith)

sha256-padded_example :
    (length (padded (bytes "abc")) % 64 ≡ 0)
    × (sha256 (bytes "abc")
        ≡ digest
            (compress_blocks (length (padded (bytes "abc")) / 64) (padded (bytes "abc")) initial))
sha256-padded_example = sha256-padded (bytes "abc")

constant_time_equal_iff_example :
    (constant_time_equal (bytes "tag") (bytes "tab") ≡ true) ↔ (bytes "tag" ≡ bytes "tab")
constant_time_equal_iff_example = constant_time_equal_iff (bytes "tag") (bytes "tab")
