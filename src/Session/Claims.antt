-- ===== src/Session/Claims.antt =====
-- What `verify_jwt` of src/odio/project.cpp accepts.
use osodio.Prelude.{
  Bytes, bytes, bytes_eq_refl, eq_of-bytes_eq, ◌≡◌, refl, ap, ◌∙◌, ℤ, true, ◌&&◌, Option, none,
  some, ◌∷◌, ◌++◌, All, arith, Bool-cases, inl, inr, ◌↔◌,
}
use osodio.Value.{Value, null, boolean, integer, real, str, list, dict, Entries, find}
use osodio.Crypto.Compare.{constant_time_equal, constant_time_equal_iff}
use osodio.Json.Floats.{Floats}
use osodio.Session.Token.{
  split_first, signature, decode_dict, NoDot, eq_of-split_first, split_first-append,
}
use osodio.Session.Jwt.{
  is_text, has_text, alg_allowed, not_expired, issuer_allowed, check_claims, check_header,
  check_signature, check_token, verify_jwt,
}

text-str : (v : Value) (t : Bytes) → is_text v t ≡ true → v ≡ str t
text-str (str s) t h = ap str (eq_of-bytes_eq s t h)
text-str null t h = cc
text-str (boolean b) t h = cc
text-str (integer i) t h = cc
text-str (real d) t h = cc
text-str (list vs) t h = cc
text-str (dict es) t h = cc

alg-str : (o : Option Value) (t : Bytes) → has_text o t ≡ true → o ≡ some (str t)
alg-str none t h = cc
alg-str (some v) t h = ap some (text-str v t h)

alg_allowed-found :
    (header : Entries)
    → alg_allowed header ≡ true
    → find (bytes "alg") header ≡ some (str (bytes "HS256"))
unfolding alg_allowed
alg_allowed-found header h = alg-str (find (bytes "alg") header) (bytes "HS256") h

found-alg_allowed :
    (header : Entries)
    → find (bytes "alg") header ≡ some (str (bytes "HS256"))
    → alg_allowed header ≡ true
unfolding alg_allowed
found-alg_allowed header e = rw e (bytes_eq_refl (bytes "HS256"))

module _ (fl : Floats) (now : ℤ) (secret issuer : Bytes) where
  -- Three parts: a header that allows HS256, claims that are in force and of the issuer, and the
  -- signature of both under the secret.
  abbrev pub Accepted : Bytes → Entries → Type 0
  Accepted token claims =
      (head : Bytes) × (body : Bytes) × (header : Entries) × (token
        ≡ head ++ b'.' ∷ (body ++ b'.' ∷ signature secret (head ++ b'.' ∷ body)))
      × All NoDot head
      × All NoDot body
      × (decode_dict fl head ≡ some header)
      × (find (bytes "alg") header ≡ some (str (bytes "HS256")))
      × (decode_dict fl body ≡ some claims)
      × ((not_expired now claims && issuer_allowed issuer claims) ≡ true)

  claims-checked :
      (payload : Option Entries) (claims : Entries)
      → check_claims fl now secret issuer payload ≡ some claims
      → (payload ≡ some claims) × ((not_expired now claims && issuer_allowed issuer claims) ≡ true)
  claims-checked none claims h = cc
  claims-checked (some p) claims h =
      elim (Bool-cases (not_expired now p && issuer_allowed issuer p)) [
        | inl e ↦ let same : p ≡ claims = ground arith in (ap some same, rw (← same) e)
        | inr e ↦ absurd (ground arith)
      ]

  header-checked :
      (head : Option Entries) (body : Bytes) (claims : Entries)
      → check_header fl now secret issuer head body ≡ some claims
      → (header : Entries) × (head ≡ some header)
        × (alg_allowed header ≡ true)
        × (check_claims fl now secret issuer (decode_dict fl body) ≡ some claims)
  header-checked none body claims h = cc
  header-checked (some header) body claims h = elim (Bool-cases (alg_allowed header)) [
    | inl e ↦ (header, refl, e, rw e at h)
    | inr e ↦ absurd (ground arith)
  ]

  signature-checked :
      (head : Bytes) (parts : Option (Bytes × Bytes)) (claims : Entries)
      → check_signature fl now secret issuer head parts ≡ some claims
      → (body : Bytes) × (parts ≡ some (body, signature secret (head ++ b'.' ∷ body)))
        × (check_header fl now secret issuer (decode_dict fl head) body ≡ some claims)
  signature-checked head none claims h = cc
  signature-checked head (some (body, given)) claims h =
      let expected = signature secret (head ++ b'.' ∷ body) in
      elim (Bool-cases (constant_time_equal given expected)) [
        | inl e ↦ (
          body,
          ap (λ g. some (body, g)) ((constant_time_equal_iff given expected).0 e),
          rw e at h,
        )
        | inr e ↦ absurd (ground arith)
      ]

  token-checked :
      (parts : Option (Bytes × Bytes)) (claims : Entries)
      → check_token fl now secret issuer parts ≡ some claims
      → (head : Bytes) × (rest : Bytes) × (parts ≡ some (head, rest))
        × (check_signature fl now secret issuer head (split_first rest) ≡ some claims)
  token-checked none claims h = cc
  token-checked (some (head, rest)) claims h = (head, rest, refl, h)

  accepted :
      (token : Bytes) (claims : Entries)
      → verify_jwt fl now secret issuer token ≡ some claims
      → Accepted token claims
  unfolding verify_jwt
  accepted token claims h =
      let (head, rest, first, h₁) = token-checked (split_first token) claims h in
      let (body, second, h₂) = signature-checked head (split_first rest) claims h₁ in
      let (header, decoded, allowed, h₃) = header-checked (decode_dict fl head) body claims h₂ in
      let (payload, valid) = claims-checked (decode_dict fl body) claims h₃ in
      let (whole, no_dot) = eq_of-split_first token head rest first in
      let (tail, no_dot') =
        eq_of-split_first rest body (signature secret (head ++ b'.' ∷ body)) second in
      (
        head,
        body,
        header,
        whole ∙ ap (λ t. head ++ b'.' ∷ t) tail,
        no_dot,
        no_dot',
        decoded,
        alg_allowed-found header allowed,
        payload,
        valid,
      )

  verified :
      (token : Bytes) (claims : Entries)
      → Accepted token claims
      → verify_jwt fl now secret issuer token ≡ some claims
  unfolding verify_jwt
  verified token claims
        (head, body, header, whole, no_dot, no_dot', decoded, allowed, payload, valid) =
      let sig = signature secret (head ++ b'.' ∷ body) in
      rw
        (
          whole,
          split_first-append head (body ++ b'.' ∷ sig) no_dot,
          split_first-append body sig no_dot',
          (constant_time_equal_iff sig sig).1 refl,
          decoded,
          found-alg_allowed header allowed,
          payload,
          valid,
        )
        refl

  -- A token gives the claims exactly if it is a header, the claims and the signature of both under
  -- the secret, none of the two parts has a dot, the header is a dictionary with `alg` HS256, and the
  -- claims are a dictionary that has not expired and is not of another issuer.
  pub verify_jwt_iff :
      (token : Bytes) (claims : Entries)
      → (verify_jwt fl now secret issuer token ≡ some claims) ↔ Accepted token claims
  verify_jwt_iff token claims = (accepted token claims, verified token claims)
