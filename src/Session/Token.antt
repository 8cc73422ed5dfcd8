-- ===== src/Session/Token.antt =====
-- What the two formats of src/odio/project.cpp share: parts between dots, and the signature.
use osodio.Prelude.{
  Bytes, ℕ, ◌≡◌, refl, true, false, Option, none, some, [], ◌∷◌, ◌++◌, All, ◌==◌, if◌then◌else◌,
  arith, ap, Bool-cases, Option-cases, inl, inr,
}
use osodio.Value.{Value, dict, Entries}
use osodio.Crypto.Base64.{base64url_encode, base64url_decode}
use osodio.Crypto.Sha256.{hmac_sha256}
use osodio.Json.Floats.{Floats}
use osodio.Json.Parse.{parse_json}

-- One more byte in front of the first part.
abbrev pub prepend : ℕ → Option (Bytes × Bytes) → Option (Bytes × Bytes)
prepend c none = none
prepend c (some (first, last)) = some (c ∷ first, last)

-- The parts around the first dot, `token.find('.')`.
unfoldable pub split_first : Bytes → Option (Bytes × Bytes)
split_first [] = none
split_first (c ∷ t) = let rest = split_first t in if c == b'.' then some ([], t) else prepend c rest

abbrev pub last_or : ℕ → Bytes → Option (Bytes × Bytes) → Option (Bytes × Bytes)
last_or c t none = if c == b'.' then some ([], t) else none
last_or c t (some (first, last)) = some (c ∷ first, last)

-- The parts around the last dot, `cookie.rfind('.')`.
unfoldable pub split_last : Bytes → Option (Bytes × Bytes)
split_last [] = none
split_last (c ∷ t) = last_or c t (split_last t)

-- `crypto::base64url_encode(crypto::hmac_sha256(secret, ...))`
unfoldable pub signature : Bytes → Bytes → Bytes
signature secret text = base64url_encode (hmac_sha256 secret text)

-- `v.is_dict()` and `v.as_dict()`
abbrev pub as_dict : Value → Option Entries
as_dict (dict es) = some es
as_dict _ = none

abbrev pub dict_of : Option Value → Option Entries
dict_of none = none
dict_of (some v) = as_dict v

abbrev pub parsed : Floats → Option Bytes → Option Value
parsed fl none = none
parsed fl (some text) = parse_json fl text

-- The dictionary in a part: `base64url_decode`, `parse_json`, `is_dict`.
unfoldable pub decode_dict : Floats → Bytes → Option Entries
decode_dict fl part = dict_of (parsed fl (base64url_decode part))

abbrev pub NoDot : ℕ → Type 0
NoDot c = (c == b'.') ≡ false

pub split_first-append :
    (first last : Bytes) → All NoDot first → split_first (first ++ b'.' ∷ last) ≡ some (first, last)
unfolding split_first
split_first-append [] last h = refl
split_first-append (c ∷ first) last (hc, h) = rw (hc, split_first-append first last h) refl

split_last-none : (s : Bytes) → All NoDot s → split_last s ≡ none
unfolding split_last
split_last-none [] h = refl
split_last-none (c ∷ s) (hc, h) = rw (split_last-none s h, hc) refl

pub split_last-append :
    (first last : Bytes) → All NoDot last → split_last (first ++ b'.' ∷ last) ≡ some (first, last)
unfolding split_last
split_last-append [] last h = rw (split_last-none last h) refl
split_last-append (c ∷ first) last h = rw (split_last-append first last h) refl

pub eq_of-split_first :
    (s first last : Bytes)
    → split_first s ≡ some (first, last)
    → (s ≡ first ++ b'.' ∷ last) × All NoDot first
unfolding split_first
eq_of-split_first [] first last e = cc
eq_of-split_first (c ∷ s) first last e = elim (Bool-cases (c == b'.')) [
  | inl dot ↦
      let (f, l) : ([] ≡ first) × (s ≡ last) = ground arith in
      rw (← f, ← l) (ap (λ t. t ∷ s) (ground arith), tt)
  | inr other ↦ elim (Option-cases (split_first s)) [
    | inl e' ↦ absurd (ground arith)
    | inr ((f, l), e') ↦
        let (hf, hl) : (c ∷ f ≡ first) × (l ≡ last) = ground arith in
        let (whole, free) = eq_of-split_first s f l e' in
        rw (← hf, ← hl) (ap (λ t. c ∷ t) whole, (other, free))
  ]
]

pub eq_of-split_last :
    (s first last : Bytes) → split_last s ≡ some (first, last) → s ≡ first ++ b'.' ∷ last
unfolding split_last
eq_of-split_last [] first last e = cc
eq_of-split_last (c ∷ s) first last e = elim (Option-cases (split_last s)) [
  | inl e' ↦
      let (d, f, l) : ((c == b'.') ≡ true) × ([] ≡ first) × (s ≡ last) = ground arith in
      rw (← f, ← l) (ap (λ t. t ∷ s) (ground arith))
  | inr ((f, l), e') ↦
      let (hf, hl) : (c ∷ f ≡ first) × (l ≡ last) = ground arith in
      rw (← hf, ← hl) (ap (λ t. c ∷ t) (eq_of-split_last s f l e'))
]
