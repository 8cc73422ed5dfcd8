-- ===== src/Session/CookieTrip.antt =====
-- `load_session` of src/odio/project.cpp on what `sign_session` makes.
use osodio.Prelude.{Bytes, ◌≡◌, refl, some}
use osodio.Value.{dict, Entries}
use osodio.Crypto.Base64.{base64url_encode}
use osodio.Crypto.Sha256.{hmac_sha256}
use osodio.Crypto.Base64.RoundTrip.{base64url_decode-encode}
use osodio.Crypto.Compare.{constant_time_equal_iff}
use osodio.Json.Floats.{Floats}
use osodio.Json.Write.{write_json}
use osodio.Json.Fits.{Fits}
use osodio.Json.RoundTrip.{parse_json-write_json}
use osodio.Session.Token.{signature, decode_dict, split_last-append}
use osodio.Session.Cookie.{sign_session, load_session}
use osodio.Session.Ascii.{base64url_encode-NoDot, write_json-IsByte}

decode_dict-encode :
    (fl : Floats) (d : Entries)
    → Fits 201 (dict d)
    → decode_dict fl (base64url_encode (write_json fl (dict d))) ≡ some d
unfolding decode_dict
decode_dict-encode fl d h =
    rw
      (
        base64url_decode-encode (write_json fl (dict d)) (write_json-IsByte fl h),
        parse_json-write_json fl (dict d) h,
      )
      refl

-- A session of which the data can be written as JSON (no floats, valid UTF-8, distinct and not
-- internal keys, nesting within the limit) is loaded as it was signed, under the same secret.
pub load_session-sign_session :
    (fl : Floats) (d : Entries) (secret : Bytes)
    → Fits 201 (dict d)
    → load_session fl (sign_session fl d secret) secret ≡ some d
unfolding load_session sign_session
load_session-sign_session fl d secret h =
    let payload = base64url_encode (write_json fl (dict d)) in
    let mac = signature secret payload in
    rw
      (
        split_last-append payload mac
            (unfold signature in base64url_encode-NoDot (hmac_sha256 secret payload)),
        (constant_time_equal_iff mac mac).1 refl,
      )
      (decode_dict-encode fl d h)
