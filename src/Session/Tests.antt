-- ===== src/Session/Tests.antt =====
-- Runs of the session cookies and the tokens of src/odio/project.cpp.
use osodio.Prelude.{
  Bytes, bytes, bytes_eq, ◌≡◌, refl, ◌↔◌, pos, negsuc, none, some, [], ◌∷◌, ◌++◌, arith,
}
use osodio.Value.{integer, dict, Entries, end, entry, find, assign}
use osodio.Value.Utf8.{utf8_valido}
use osodio.Value.Double.{long_of_double, long_of_long, nearest, excess}
use osodio.Crypto.Base64.{base64url_encode}
use osodio.Json.Floats.{Floats}
use osodio.Json.Fits.{Fits, an_integer, a_dict, no_entry, an_entry}
use osodio.Session.Token.{signature, decode_dict}
use osodio.Session.Cookie.{sign_session, load_session, load_session-signed}
use osodio.Session.CookieTrip.{load_session-sign_session}
use osodio.Session.Jwt.{verify_jwt}
use osodio.Session.Claims.{Accepted, verify_jwt_iff}

abbrev no_floats : Floats
no_floats = record { to_chars = λ d. none; from_chars = λ t. none }

-- `{"user": 7}`
abbrev session_data : Entries
session_data = entry (bytes "user") (integer (pos 7)) end

session_data-Fits : Fits 201 (dict session_data)
unfolding find assign bytes_eq utf8_valido
session_data-Fits = a_dict (
    an_entry (bytes "user") (omega arith, refl) refl refl (an_integer (pos 7) (omega arith))
      no_entry)

load_session-sign_session_example :
    load_session no_floats (sign_session no_floats session_data (bytes "key")) (bytes "key")
    ≡ some session_data
load_session-sign_session_example =
    load_session-sign_session no_floats session_data (bytes "key") session_data-Fits

load_session-signed_example :
    (payload : Bytes) × (sign_session no_floats session_data (bytes "key")
      ≡ payload ++ b'.' ∷ signature (bytes "key") payload)
    × (decode_dict no_floats payload ≡ some session_data)
load_session-signed_example =
    load_session-signed no_floats (sign_session no_floats session_data (bytes "key")) (bytes "key")
      session_data
      (load_session-sign_session no_floats session_data (bytes "key") session_data-Fits)

abbrev token : Bytes
token =
    let part = base64url_encode (bytes "{}") ++ b'.' ∷ base64url_encode (bytes "{}") in
    part ++ b'.' ∷ signature (bytes "key") part

verify_jwt_iff_example :
    (verify_jwt no_floats (pos 0) (bytes "key") [] token ≡ some end)
    ↔ Accepted no_floats (pos 0) (bytes "key") [] token end
verify_jwt_iff_example = verify_jwt_iff no_floats (pos 0) (bytes "key") [] token end

-- 2 ^ 53 + 1 is rounded to the even number below it, and 1.5 is cut off.
rounded : long_of_long (pos 9007199254740993) ≡ pos 9007199254740992
unfolding long_of_long nearest excess
rounded = refl

cut_off : long_of_double 0x3FF8000000000000 ≡ pos 1
unfolding long_of_double
cut_off = refl

minus_two : long_of_double 0xC000000000000000 ≡ negsuc 1
unfolding long_of_double
minus_two = refl
