-- ===== src/Cookies/Reading.antt =====
-- `parse_cookie_header` of include/lohin/cookies.hpp on the headers that clients send.
use mathlib.Core.List.{append_assoc}
use osodio.Prelude.{
  Bytes, ℕ, ◌≤◌, ◌≡◌, refl, Bool, true, false, ◌||◌, some, [], ◌∷◌, ◌++◌, All, All-append, arith,
  ◌==◌, ap, length, ◌∙◌, sym,
}
use osodio.StringMap.{emplace}
use osodio.Cookies.{Cookies, pieces, skip_space, split_pair, put, put_all, parse_cookie_header}

-- A byte of a name, and a byte of a value.
abbrev pub IsNameByte : ℕ → Type 0
IsNameByte c = (c == b';' || c == b'=' || c == b' ' || c == 0x09) ≡ false

abbrev pub IsValueByte : ℕ → Type 0
IsValueByte c = (c == b';') ≡ false

abbrev pub IsCookie : Bytes × Bytes → Type 0
IsCookie (k, v) = (1 ≤ length k) × All IsNameByte k × All IsValueByte v

abbrev pub item : Bytes × Bytes → Bytes
item (k, v) = k ++ b'=' ∷ v

-- "a=1; b=2"
unfoldable pub header_of : Cookies → Bytes
header_of [] = []
header_of (p ∷ []) = item p
header_of (p ∷ q ∷ ps) = item p ++ b';' ∷ b' ' ∷ header_of (q ∷ ps)

-- The cookies in order, the first one of a name.
unfoldable pub emplace_all : Cookies → Cookies → Cookies
emplace_all [] out = out
emplace_all ((k, v) ∷ ps) out = emplace_all ps (emplace k v out)

pieces-append :
    (text rest : Bytes) → All IsValueByte text → pieces (text ++ b';' ∷ rest) ≡ text ∷ pieces rest
unfolding pieces
pieces-append [] rest h = refl
pieces-append (c ∷ text) rest (hc, h) = rw (hc, pieces-append text rest h) refl

pieces-end : (text : Bytes) → All IsValueByte text → pieces text ≡ text ∷ []
unfolding pieces
pieces-end [] h = refl
pieces-end (c ∷ text) (hc, h) = rw (hc, pieces-end text h) refl

split_pair-item : (k v : Bytes) → All IsNameByte k → split_pair (k ++ b'=' ∷ v) ≡ some (k, v)
unfolding split_pair
split_pair-item [] v h = refl
split_pair-item (c ∷ k) v (hc, h) =
    let other : (c == b'=') ≡ false = ground arith in rw (other, split_pair-item k v h) refl

names : (k : Bytes) → All IsNameByte k → All IsValueByte k
names [] h = tt
names (c ∷ k) (hc, h) = (ground arith, names k h)

item-All : (p : Bytes × Bytes) → IsCookie p → All IsValueByte (item p)
item-All (k, v) (h, hk, hv) = All-append IsValueByte k (b'=' ∷ v) (names k hk) (refl, hv)

-- A space in front of an item, or none.
abbrev lead : Bool → Bytes
lead true = b' ' ∷ []
lead false = []

put-item :
    (spaced : Bool) (k v : Bytes) (out : Cookies)
    → IsCookie (k, v)
    → put (split_pair (skip_space (lead spaced ++ item (k, v)))) out ≡ emplace k v out
unfolding skip_space
put-item spaced [] v out (h, hk, hv) = absurd (omega arith)
put-item true (c ∷ k) v out (h, (hc, hk), hv) =
    let other : (c == b' ' || c == 0x09) ≡ false = ground arith in
    rw (other, split_pair-item (c ∷ k) v (hc, hk)) refl
put-item false (c ∷ k) v out (h, (hc, hk), hv) =
    let other : (c == b' ' || c == 0x09) ≡ false = ground arith in
    rw (other, split_pair-item (c ∷ k) v (hc, hk)) refl

lead-All : (spaced : Bool) (t : Bytes) → All IsValueByte t → All IsValueByte (lead spaced ++ t)
lead-All true t h = (refl, h)
lead-All false t h = h

put_all-header :
    (spaced : Bool) (ps out : Cookies)
    → All IsCookie ps
    → put_all (pieces (lead spaced ++ header_of ps)) out ≡ emplace_all ps out
unfolding put_all header_of emplace_all
put_all-header true [] out h = unfold pieces skip_space split_pair in refl
put_all-header false [] out h = unfold pieces skip_space split_pair in refl
put_all-header spaced ((k, v) ∷ []) out (h, hs) =
    rw (pieces-end (lead spaced ++ item (k, v)) (lead-All spaced _ (item-All (k, v) h)))
      (put-item spaced k v out h)
put_all-header spaced ((k, v) ∷ q ∷ ps) out (h, hs) =
    let first = lead spaced ++ item (k, v) in
    let e : lead spaced ++ (item (k, v) ++ b';' ∷ b' ' ∷ header_of (q ∷ ps))
        ≡ first ++ b';' ∷ b' ' ∷ header_of (q ∷ ps) =
      sym (append_assoc (lead spaced) (item (k, v)) _) in
    rw (e, pieces-append first (b' ' ∷ header_of (q ∷ ps)) (lead-All spaced _ (item-All (k, v) h)))
      (ap (λ o. put_all (pieces (b' ' ∷ header_of (q ∷ ps))) o) (put-item spaced k v out h)
        ∙ put_all-header true (q ∷ ps) (emplace k v out) hs)

-- A header that joins cookies by "; " is read back: all cookies, and the first one where two have
-- the same name. Names are not empty and have no space, tab, '=' or ';', values have no ';'.
pub parse_cookie_header-header_of :
    (ps : Cookies) → All IsCookie ps → parse_cookie_header (header_of ps) ≡ emplace_all ps []
unfolding parse_cookie_header
parse_cookie_header-header_of ps h = put_all-header false ps [] h
