-- ===== src/Cookies.antt =====
-- include/lohin/cookies.hpp: the `Set-Cookie` header that is written and the `Cookie` header that is
-- read. The warning on standard error is left out.
pub mod Breaks
pub mod Reading
mod Tests
use osodio.Prelude.{
  Bytes, bytes, ℕ, ℤ, Bool, true, false, not, ◌&&◌, ◌||◌, Option, none, some, List, [], ◌∷◌, ◌++◌,
  ◌==◌, if◌then◌else◌,
}
use osodio.StringMap.{emplace}
use osodio.Value.Decimal.{to_string}

pub data SameSite : Type 0 where
  strict : SameSite
  lax : SameSite
  cross_site : SameSite

pub record CookieOptions : Type 0 where
  pub path : Bytes
  pub domain : Bytes
  pub max_age : Option ℤ
  pub secure : Bool
  pub http_only : Bool
  pub same_site : SameSite

-- The bytes that are erased from a name or a value.
abbrev pub separator : ℕ → Bool
separator c = c == 0x0D || c == 0x0A || c == b';' || c == b',' || c == b' ' || c == 0x09

abbrev pub line_break : ℕ → Bool
line_break c = c == 0x0D || c == 0x0A

unfoldable pub erase_if : (ℕ → Bool) → Bytes → Bytes
erase_if p [] = []
erase_if p (c ∷ s) = let rest = erase_if p s in if p c then rest else c ∷ rest

abbrev pub strip : Bytes → Bytes
strip s = erase_if separator s

abbrev pub strip_crlf : Bytes → Bytes
strip_crlf s = erase_if line_break s

-- SameSite=None is promoted to Secure.
unfoldable pub is_secure : CookieOptions → Bool
is_secure opts = elim opts.same_site [
  | strict ↦ opts.secure
  | lax ↦ opts.secure
  | cross_site ↦ true
]

-- An attribute with a text, where the text is not empty.
abbrev pub attribute : Bytes → Bytes → Bytes
attribute label [] = []
attribute label (c ∷ s) = label ++ c ∷ s

abbrev pub age_attribute : Option ℤ → Bytes
age_attribute none = []
age_attribute (some seconds) = bytes "; Max-Age=" ++ to_string seconds

abbrev pub same_site_attribute : SameSite → Bytes
same_site_attribute strict = bytes "; SameSite=Strict"
same_site_attribute lax = bytes "; SameSite=Lax"
same_site_attribute cross_site = bytes "; SameSite=None"

abbrev pub flag_attribute : Bool → Bytes → Bytes
flag_attribute true label = label
flag_attribute false label = []

-- The attributes behind the pair.
unfoldable pub attributes : CookieOptions → Bytes
attributes opts =
    attribute (bytes "; Path=") (strip_crlf opts.path)
    ++ (attribute (bytes "; Domain=") (strip_crlf opts.domain)
        ++ (age_attribute opts.max_age
            ++ (flag_attribute opts.http_only (bytes "; HttpOnly")
                ++ (flag_attribute (is_secure opts) (bytes "; Secure")
                    ++ same_site_attribute opts.same_site))))

unfoldable pub build_set_cookie : Bytes → Bytes → CookieOptions → Bytes
build_set_cookie name value opts = strip name ++ b'=' ∷ (strip value ++ attributes opts)

-- One more byte in front of the first piece.
abbrev pub push_first : ℕ → List Bytes → List Bytes
push_first c [] = (c ∷ []) ∷ []
push_first c (p ∷ ps) = (c ∷ p) ∷ ps

-- The pieces between semicolons, `header.find(';', pos)` from one to the next. A last empty piece
-- has no pair.
unfoldable pub pieces : Bytes → List Bytes
pieces [] = [] ∷ []
pieces (c ∷ t) = let rest = pieces t in if c == b';' then [] ∷ rest else push_first c rest

-- "Skip leading whitespace"
unfoldable pub skip_space : Bytes → Bytes
skip_space [] = []
skip_space (c ∷ t) = let rest = skip_space t in if c == b' ' || c == 0x09 then rest else c ∷ t

abbrev pub prepend : ℕ → Option (Bytes × Bytes) → Option (Bytes × Bytes)
prepend c none = none
prepend c (some (k, v)) = some (c ∷ k, v)

-- The parts around the first '=', `pair.find('=')`.
unfoldable pub split_pair : Bytes → Option (Bytes × Bytes)
split_pair [] = none
split_pair (c ∷ t) = let rest = split_pair t in if c == b'=' then some ([], t) else prepend c rest

abbrev pub Cookies : Type 0
Cookies = List (Bytes × Bytes)

-- `out.emplace`, unless the name is empty: the first cookie of a name stays.
abbrev pub put : Option (Bytes × Bytes) → Cookies → Cookies
put none out = out
put (some ([], v)) out = out
put (some (c ∷ k, v)) out = emplace (c ∷ k) v out

unfoldable pub put_all : List Bytes → Cookies → Cookies
put_all [] out = out
put_all (p ∷ ps) out = put_all ps (put (split_pair (skip_space p)) out)

unfoldable pub parse_cookie_header : Bytes → Cookies
parse_cookie_header header = put_all (pieces header) []
