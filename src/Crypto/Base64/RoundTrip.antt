-- ===== src/Crypto/Base64/RoundTrip.antt =====
-- What `base64url_decode` of src/odio/crypto.cpp makes of an encoded text.
use Prim.Native.Nat.{bit_or}
use mathlib.Core.Path.{ap₂}
use osodio.Bits.{bit_or-shift, bit_or-six}
use osodio.Prelude.{
  Bytes, IsByte, ℕ, ◌+◌, ◌*◌, ◌/◌, ◌%◌, ◌^◌, ◌<◌, ◌≡◌, refl, Bool, true, false, none, some, [], ◌∷◌,
  All, leb, ◌==◌, arith, all_below, all_below-lt, get_or, ap, ◌∙◌,
}
use osodio.Crypto.Base64.{
  alphabet, letter, pack, base64url_encode, decode_char, push, drain, decode_from, base64url_decode,
}

abbrev decodes_to : ℕ → Bool
decodes_to d = elim (decode_char (get_or alphabet d 0)) [ none ↦ false | some e ↦ e == d ]

decodes_to_all : all_below 64 decodes_to ≡ true
unfolding all_below decode_char alphabet
decodes_to_all = refl

not_padding_all :
    all_below 64 (λ d. elim (get_or alphabet d 0 == b'=') [ true ↦ false | false ↦ true ]) ≡ true
unfolding all_below alphabet
not_padding_all = refl

decode_char-alphabet : (d : ℕ) → d < 64 → decode_char (get_or alphabet d 0) ≡ some d
decode_char-alphabet d h = ground (arith, all_below-lt 64 decodes_to d h decodes_to_all)

alphabet-ne-padding : (d : ℕ) → d < 64 → (get_or alphabet d 0 == b'=') ≡ false
alphabet-ne-padding d h = ground (arith, all_below-lt 64 _ d h not_padding_all)

abbrev char : ℕ → ℕ
char d = get_or alphabet d 0

abbrev next : ℕ → ℕ → ℕ
next acc d = acc * 64 % 2 ^ 32 + d

acc-next : (acc d : ℕ) → d < 64 → bit_or (acc * 64 % 2 ^ 32) d ≡ next acc d
acc-next acc d h =
    let e : acc * 64 % 2 ^ 32 ≡ acc % 2 ^ 26 * 64 = omega arith in
    rw e (bit_or-six (acc % 2 ^ 26) d h)

-- One letter of the text.
decode_from-char :
    (text : Bytes) (acc d bits : ℕ)
    → d < 64
    → decode_from (char d ∷ text) acc bits
      ≡ drain (leb 8 (bits + 6)) (next acc d) (bits + 6) (decode_from text)
unfolding decode_from
decode_from-char text acc d bits h =
    rw (alphabet-ne-padding d h, decode_char-alphabet d h, acc-next acc d h)

-- Two, three and four letters from a state with no bits pending.
module _ (text : Bytes) (acc d e : ℕ) (hd : d < 64) (he : e < 64) where
  decode_from-two :
      decode_from (char d ∷ char e ∷ text) acc 0
      ≡ push (d * 4 + e / 16) (decode_from text (next (next acc d) e) 4)
  decode_from-two =
      let b : next (next acc d) e / 16 % 256 ≡ d * 4 + e / 16 = omega arith in
      decode_from-char (char e ∷ text) acc d 0 hd
      ∙ decode_from-char text (next acc d) e 6 he
      ∙ ap (λ c. push c (decode_from text (next (next acc d) e) 4)) b

module _ (text : Bytes) (acc d e f : ℕ) (hd : d < 64) (he : e < 64) (hf : f < 64) where
  decode_from-three :
      decode_from (char d ∷ char e ∷ char f ∷ text) acc 0
      ≡ push
          (d * 4 + e / 16)
          (push (e % 16 * 16 + f / 4) (decode_from text (next (next (next acc d) e) f) 2))
  decode_from-three =
      let b : next (next (next acc d) e) f / 4 % 256 ≡ e % 16 * 16 + f / 4 = omega arith in
      decode_from-two (char f ∷ text) acc d e hd he
      ∙ ap (push (d * 4 + e / 16)) (
          decode_from-char text (next (next acc d) e) f 4 hf
          ∙ ap (λ c. push c (decode_from text (next (next (next acc d) e) f) 2)) b)

module _ (text : Bytes) (acc d e f g : ℕ) (hd : d < 64) (he : e < 64) (hf : f < 64)
    (hg : g < 64) where
  decode_from-four :
      decode_from (char d ∷ char e ∷ char f ∷ char g ∷ text) acc 0
      ≡ push (d * 4 + e / 16) (
          push
            (e % 16 * 16 + f / 4)
            (push (f % 4 * 64 + g) (decode_from text (next (next (next (next acc d) e) f) g) 0)))
  decode_from-four =
      let b : next (next (next (next acc d) e) f) g / 1 % 256 ≡ f % 4 * 64 + g = omega arith in
      decode_from-three (char g ∷ text) acc d e f hd he hf
      ∙ ap (λ r. push (d * 4 + e / 16) (push (e % 16 * 16 + f / 4) r))
          (decode_from-char text (next (next (next acc d) e) f) g 2 hg
            ∙ ap (λ c. push c (decode_from text (next (next (next (next acc d) e) f) g) 0)) b)

pair-sum : (a b : ℕ) → IsByte b → bit_or (a * 2 ^ 16) (b * 2 ^ 8) ≡ a * 65536 + b * 256
pair-sum a b hb = bit_or-shift 16 a (b * 256) (omega arith)

pack-sum : (a b c : ℕ) → IsByte b → IsByte c → pack a b c ≡ a * 65536 + b * 256 + c
unfolding pack
pack-sum a b c hb hc =
    let e : a * 65536 + b * 256 ≡ (a * 256 + b) * 256 = omega arith in
    rw (pair-sum a b hb, e) (bit_or-shift 8 (a * 256 + b) c hc ∙ omega arith)

decode_from-base64url_encode :
    (raw : Bytes) (acc : ℕ) → All IsByte raw → decode_from (base64url_encode raw) acc 0 ≡ some raw
unfolding base64url_encode letter
decode_from-base64url_encode [] acc h = unfold decode_from in refl
decode_from-base64url_encode (a ∷ []) acc (ha, h) =
    let v = a * 65536 in
    let first : v / 2 ^ 18 % 64 * 4 + v / 2 ^ 12 % 64 / 16 ≡ a = omega arith in
    decode_from-two [] acc (v / 2 ^ 18 % 64) (v / 2 ^ 12 % 64) (omega arith) (omega arith)
    ∙ unfold decode_from in ap (λ x. some (x ∷ [])) first
decode_from-base64url_encode (a ∷ b ∷ []) acc (ha, (hb, h)) =
    let v = bit_or (a * 65536) (b * 256) in
    let sum : v ≡ a * 65536 + b * 256 = pair-sum a b hb in
    let first : v / 2 ^ 18 % 64 * 4 + v / 2 ^ 12 % 64 / 16 ≡ a = omega arith in
    let second : v / 2 ^ 12 % 64 % 16 * 16 + v / 2 ^ 6 % 64 / 4 ≡ b = omega arith in
    decode_from-three [] acc (v / 2 ^ 18 % 64) (v / 2 ^ 12 % 64) (v / 2 ^ 6 % 64) (omega arith)
      (omega arith) (omega arith)
    ∙ unfold decode_from in ap₂ (λ x y. some (x ∷ y ∷ [])) first second
decode_from-base64url_encode (a ∷ b ∷ c ∷ raw) acc (ha, (hb, (hc, h))) =
    let v = pack a b c in
    let sum : v ≡ a * 65536 + b * 256 + c = pack-sum a b c hb hc in
    let first : v / 2 ^ 18 % 64 * 4 + v / 2 ^ 12 % 64 / 16 ≡ a = omega arith in
    let second : v / 2 ^ 12 % 64 % 16 * 16 + v / 2 ^ 6 % 64 / 4 ≡ b = omega arith in
    let third : v / 2 ^ 6 % 64 % 4 * 64 + v / 2 ^ 0 % 64 ≡ c = omega arith in
    decode_from-four (base64url_encode raw) acc (v / 2 ^ 18 % 64) (v / 2 ^ 12 % 64) (v / 2 ^ 6 % 64)
      (v / 2 ^ 0 % 64) (omega arith) (omega arith) (omega arith) (omega arith)
    ∙ rw (first, second, third, decode_from-base64url_encode raw _ h)

-- Decoding what was encoded gives the bytes back, at every length.
pub base64url_decode-encode :
    (raw : Bytes) → All IsByte raw → base64url_decode (base64url_encode raw) ≡ some raw
unfolding base64url_decode
base64url_decode-encode raw h = decode_from-base64url_encode raw 0 h
