-- ===== src/Session/Cookie.antt =====
-- `sign_session` and `load_session` of src/odio/project.cpp.
use osodio.Prelude.{
  Bytes, ◌≡◌, Option, none, some, ◌∷◌, ◌++◌, if◌then◌else◌, arith, Bool-cases, inl, inr, ap,
}
use osodio.Value.{dict, Entries}
use osodio.Crypto.Base64.{base64url_encode}
use osodio.Crypto.Compare.{constant_time_equal, constant_time_equal_iff}
use osodio.Json.Floats.{Floats}
use osodio.Json.Write.{write_json}
use osodio.Session.Token.{split_last, signature, decode_dict, eq_of-split_last}

module _ (fl : Floats) where
  unfoldable pub sign_session : Entries → Bytes → Bytes
  sign_session data' secret =
      let payload = base64url_encode (write_json fl (dict data')) in
      payload ++ b'.' ∷ signature secret payload

  -- Behind the split at the dot.
  abbrev pub check_cookie : Bytes → Option (Bytes × Bytes) → Option Entries
  check_cookie secret none = none
  check_cookie secret (some (payload, given)) =
      if constant_time_equal given (signature secret payload) then decode_dict fl payload else none

  -- The data, or `none` for `false`.
  unfoldable pub load_session : Bytes → Bytes → Option Entries
  load_session cookie secret = check_cookie secret (split_last cookie)

  check_cookie-signed :
      (secret : Bytes) (parts : Option (Bytes × Bytes)) (d : Entries)
      → check_cookie secret parts ≡ some d
      → (payload : Bytes) × (parts ≡ some (payload, signature secret payload))
        × (decode_dict fl payload ≡ some d)
  check_cookie-signed secret none d h = cc
  check_cookie-signed secret (some (payload, given)) d h =
      elim (Bool-cases (constant_time_equal given (signature secret payload))) [
        | inl e ↦ (
          payload,
          ap (λ g. some (payload, g))
              ((constant_time_equal_iff given (signature secret payload)).0 e),
          rw e at h,
        )
        | inr e ↦ absurd (ground arith)
      ]

  -- A cookie that is accepted is a payload, a dot and the signature of that payload under the secret,
  -- and the session is the dictionary that the payload encodes.
  pub load_session-signed :
      (cookie secret : Bytes) (d : Entries)
      → load_session cookie secret ≡ some d
      → (payload : Bytes) × (cookie ≡ payload ++ b'.' ∷ signature secret payload)
        × (decode_dict fl payload ≡ some d)
  unfolding load_session
  load_session-signed cookie secret d h =
      let (payload, parts, decoded) = check_cookie-signed secret (split_last cookie) d h in
      (payload, eq_of-split_last cookie payload (signature secret payload) parts, decoded)
