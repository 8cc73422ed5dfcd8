-- ===== src/Cookies/Tests.antt =====
-- Runs of the cookies of include/lohin/cookies.hpp.
use osodio.Prelude.{bytes, bytes_eq, ◌≡◌, refl, pos, true, false, some, [], ◌∷◌, All, arith}
use osodio.StringMap.{emplace, lookup, insert}
use osodio.Value.Decimal.{to_string, digits_of}
use osodio.Cookies.{
  cross_site, CookieOptions, erase_if, attributes, build_set_cookie, is_secure, pieces, skip_space,
  split_pair, put_all, parse_cookie_header,
}
use osodio.Cookies.Breaks.{NoBreak, build_set_cookie-NoBreak}
use osodio.Cookies.Reading.{header_of, emplace_all, parse_cookie_header-header_of}

abbrev options : CookieOptions
options = record {
  path = b'/' ∷ 0x0D ∷ 0x0A ∷ [];
  domain = [];
  max_age = some (pos 60);
  secure = false;
  http_only = true;
  same_site = cross_site;
}

set_cookie_run :
    build_set_cookie (bytes "a;") (b'1' ∷ 0x0D ∷ 0x0A ∷ b'2' ∷ []) options
    ≡ bytes "a=12; Path=/; Max-Age=60; HttpOnly; Secure; SameSite=None"
unfolding build_set_cookie attributes erase_if is_secure to_string digits_of
set_cookie_run = refl

reading_run :
    parse_cookie_header (bytes " a=1;; b ;c=x=y; a=2;=z")
    ≡ (bytes "a", bytes "1") ∷ (bytes "c", bytes "x=y") ∷ []
unfolding parse_cookie_header put_all pieces skip_space split_pair emplace lookup insert bytes_eq
reading_run = refl

build_set_cookie-NoBreak_example :
    All NoBreak (build_set_cookie (bytes "a;") (b'1' ∷ 0x0D ∷ 0x0A ∷ b'2' ∷ []) options)
build_set_cookie-NoBreak_example =
    build_set_cookie-NoBreak (bytes "a;") (b'1' ∷ 0x0D ∷ 0x0A ∷ b'2' ∷ []) options

parse_cookie_header-header_of_example :
    parse_cookie_header (header_of ((bytes "a", bytes "1") ∷ (bytes "b", bytes "x=y") ∷ []))
    ≡ emplace_all ((bytes "a", bytes "1") ∷ (bytes "b", bytes "x=y") ∷ []) []
parse_cookie_header-header_of_example =
    parse_cookie_header-header_of ((bytes "a", bytes "1") ∷ (bytes "b", bytes "x=y") ∷ [])
      (ground arith)
