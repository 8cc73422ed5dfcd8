-- ===== src/Session/Jwt.antt =====
-- `verify_jwt` of src/odio/project.cpp. The time is an argument.
use osodio.Prelude.{
  Bytes, bytes, bytes_eq, ℤ, Bool, true, false, not, ◌&&◌, Option, none, some, [], ◌∷◌, ◌++◌, ltb_ℤ,
  if◌then◌else◌,
}
use osodio.Value.{Value, integer, real, str, Entries, find}
use osodio.Value.Double.{long_of_double, long_of_long}
use osodio.Crypto.Compare.{constant_time_equal}
use osodio.Json.Floats.{Floats}
use osodio.Session.Token.{split_first, signature, decode_dict}

-- `is_str()` and the same text.
abbrev pub is_text : Value → Bytes → Bool
is_text (str s) t = bytes_eq s t
is_text _ t = false

abbrev pub has_text : Option Value → Bytes → Bool
has_text none t = false
has_text (some v) t = is_text v t

-- The `alg` of the header.
unfoldable pub alg_allowed : Entries → Bool
alg_allowed header = has_text (find (bytes "alg") header) (bytes "HS256")

-- `exp`, of a value that is a number: it is not before now.
abbrev pub not_before : ℤ → Option Value → Bool
not_before now (some (integer i)) = not (ltb_ℤ (long_of_long i) now)
not_before now (some (real bits)) = not (ltb_ℤ (long_of_double bits) now)
not_before now _ = true

unfoldable pub not_expired : ℤ → Entries → Bool
not_expired now payload = not_before now (find (bytes "exp") payload)

abbrev pub issued_by : Bytes → Option Value → Bool
issued_by issuer none = true
issued_by issuer (some v) = is_text v issuer

-- `iss`, where an issuer is configured.
unfoldable pub issuer_allowed : Bytes → Entries → Bool
issuer_allowed [] payload = true
issuer_allowed (c ∷ issuer) payload = issued_by (c ∷ issuer) (find (bytes "iss") payload)

module _ (fl : Floats) (now : ℤ) (secret issuer : Bytes) where
  -- The checks of the payload, behind those of the header.
  abbrev pub check_claims : Option Entries → Option Entries
  check_claims none = none
  check_claims (some payload) =
      if not_expired now payload && issuer_allowed issuer payload then some payload else none

  abbrev pub check_header : Option Entries → Bytes → Option Entries
  check_header none body = none
  check_header (some header) body =
      if alg_allowed header then check_claims (decode_dict fl body) else none

  abbrev pub check_signature : Bytes → Option (Bytes × Bytes) → Option Entries
  check_signature head none = none
  check_signature head (some (body, given)) =
      if constant_time_equal given (signature secret (head ++ b'.' ∷ body))
      then check_header (decode_dict fl head) body
      else none

  abbrev pub check_token : Option (Bytes × Bytes) → Option Entries
  check_token none = none
  check_token (some (head, rest)) = check_signature head (split_first rest)

  -- The claims, or `none` for `false`.
  unfoldable pub verify_jwt : Bytes → Option Entries
  verify_jwt token = check_token (split_first token)
