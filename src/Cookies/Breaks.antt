-- ===== src/Cookies/Breaks.antt =====
-- The `Set-Cookie` value of include/lohin/cookies.hpp as one line.
use osodio.Prelude.{
  Bytes, bytes, ℕ, suc, ◌≡◌, refl, ℤ, pos, negsuc, Bool, true, false, Option, none, some, [], ◌∷◌,
  All, All-append, arith, Bool-cases, inl, inr,
}
use osodio.Value.Decimal.{to_string, IsDigit, digits_of-All}
use osodio.Cookies.{
  SameSite, strict, lax, cross_site, CookieOptions, separator, line_break, erase_if, attribute,
  age_attribute, same_site_attribute, flag_attribute, attributes, build_set_cookie, is_secure,
  strip_crlf,
}

abbrev pub NoBreak : ℕ → Type 0
NoBreak c = line_break c ≡ false

erase_if-All : (p : ℕ → Bool) (s : Bytes) → All (λ c. p c ≡ false) (erase_if p s)
unfolding erase_if
erase_if-All p [] = tt
erase_if-All p (c ∷ s) = elim (Bool-cases (p c)) [
  | inl e ↦ rw e (erase_if-All p s)
  | inr e ↦ rw e (e, erase_if-All p s)
]

separators-NoBreak : (s : Bytes) → All (λ c. separator c ≡ false) s → All NoBreak s
separators-NoBreak [] h = tt
separators-NoBreak (c ∷ s) (hc, h) = (ground arith, separators-NoBreak s h)

digits-NoBreak : (s : Bytes) → All IsDigit s → All NoBreak s
digits-NoBreak [] h = tt
digits-NoBreak (c ∷ s) (hc, h) = (ground arith, digits-NoBreak s h)

to_string-NoBreak : (i : ℤ) → All NoBreak (to_string i)
unfolding to_string
to_string-NoBreak (pos n) = digits-NoBreak _ (digits_of-All n n [] tt)
to_string-NoBreak (negsuc n) = (refl, digits-NoBreak _ (digits_of-All (suc n) (suc n) [] tt))

attribute-NoBreak :
    (label s : Bytes) → All NoBreak label → All NoBreak s → All NoBreak (attribute label s)
attribute-NoBreak label [] hl h = tt
attribute-NoBreak label (c ∷ s) hl h = All-append NoBreak label (c ∷ s) hl h

age-NoBreak : (age : Option ℤ) → All NoBreak (age_attribute age)
age-NoBreak none = tt
age-NoBreak (some i) =
    All-append NoBreak (bytes "; Max-Age=") (to_string i) (ground arith) (to_string-NoBreak i)

flag-NoBreak : (b : Bool) (label : Bytes) → All NoBreak label → All NoBreak (flag_attribute b label)
flag-NoBreak true label h = h
flag-NoBreak false label h = tt

same_site-NoBreak : (s : SameSite) → All NoBreak (same_site_attribute s)
same_site-NoBreak strict = ground arith
same_site-NoBreak lax = ground arith
same_site-NoBreak cross_site = ground arith

attributes-NoBreak : (opts : CookieOptions) → All NoBreak (attributes opts)
unfolding attributes
attributes-NoBreak opts =
    All-append NoBreak _ _
      (attribute-NoBreak (bytes "; Path=") (strip_crlf opts.path) (ground arith)
        (erase_if-All line_break opts.path))
      (All-append NoBreak _ _
        (attribute-NoBreak (bytes "; Domain=") (strip_crlf opts.domain) (ground arith)
          (erase_if-All line_break opts.domain))
        (All-append NoBreak _ _ (age-NoBreak opts.max_age) (
          All-append NoBreak _ _ (flag-NoBreak opts.http_only (bytes "; HttpOnly") (ground arith)) (
            All-append NoBreak _ _ (flag-NoBreak (is_secure opts) (bytes "; Secure") (ground arith))
              (same_site-NoBreak opts.same_site)))))

-- Whatever the name, the value and the options, the header value has no carriage return and no line
-- feed.
pub build_set_cookie-NoBreak :
    (name value : Bytes) (opts : CookieOptions) → All NoBreak (build_set_cookie name value opts)
unfolding build_set_cookie
build_set_cookie-NoBreak name value opts =
    All-append NoBreak _ _ (separators-NoBreak _ (erase_if-All separator name)) (
      refl,
      All-append NoBreak _ _ (separators-NoBreak _ (erase_if-All separator value))
          (attributes-NoBreak opts),
    )
