-- ===== src/HttpParser/Chunks.antt =====
-- How the calls of the parser are cut, in src/http/http_parser.cpp.
use mathlib.Core.List.{append_assoc}
use osodio.Prelude.{
  Bytes, ℕ, ◌+◌, ◌≡◌, refl, true, false, List, ◌∷◌, ◌++◌, ltb, length, length-append, arith,
  Bool-cases, inl, inr,
}
use osodio.HttpParser.{
  ParseContext, max_url_size, max_header_size, max_body_size, Reply, ok, user, paused, on_url,
  on_header_value, on_body, Event, url, header_value, body_part, handle, unless_refused, run,
}

-- One more call: a text of the first sequence comes in two pieces in the second.
pub data IsCut : List Event → List Event → Type 0 where
  url_cut : (a b : Bytes) (es : List Event) → IsCut (url (a ++ b) ∷ es) (url a ∷ url b ∷ es)
  value_cut :
      (a b : Bytes) (es : List Event)
      → IsCut (header_value (a ++ b) ∷ es) (header_value a ∷ header_value b ∷ es)
  body_cut :
      (a b : Bytes) (es : List Event)
      → IsCut (body_part (a ++ b) ∷ es) (body_part a ∷ body_part b ∷ es)
  later : (e : Event) (es fs : List Event) → IsCut es fs → IsCut (e ∷ es) (e ∷ fs)

within :
    (limit : ℕ) (old a b : Bytes)
    → ltb limit (length old + length (a ++ b)) ≡ false
    → (ltb limit (length old + length a) ≡ false)
      × (ltb limit (length (old ++ a) + length b) ≡ false)
within limit old a b h =
    (ground (arith, length-append a b), ground (arith, length-append a b, length-append old a))

url-cut :
    (a b : Bytes) (es : List Event) (c : ParseContext)
    → ltb max_url_size (length c.current.path + length (a ++ b)) ≡ false
    → run (url a ∷ url b ∷ es) c ≡ run (url (a ++ b) ∷ es) c
unfolding run on_url
url-cut a b es c h =
    let (first, second) = within max_url_size c.current.path a b h in
    rw (h, first, second, append_assoc c.current.path a b) refl

value-cut :
    (a b : Bytes) (es : List Event) (c : ParseContext)
    → ltb max_header_size (length c.last_value + length (a ++ b)) ≡ false
    → run (header_value a ∷ header_value b ∷ es) c ≡ run (header_value (a ++ b) ∷ es) c
unfolding run on_header_value
value-cut a b es c h =
    let (first, second) = within max_header_size c.last_value a b h in
    rw (h, first, second, append_assoc c.last_value a b) refl

body-cut :
    (a b : Bytes) (es : List Event) (c : ParseContext)
    → ltb max_body_size (length c.current.body + length (a ++ b)) ≡ false
    → run (body_part a ∷ body_part b ∷ es) c ≡ run (body_part (a ++ b) ∷ es) c
unfolding run on_body
body-cut a b es c h =
    let (first, second) = within max_body_size c.current.body a b h in
    rw (h, first, second, append_assoc c.current.body a b) refl

-- An event that is accepted did not exceed its limit.
url-accepted :
    (t : Bytes) (es : List Event) (c : ParseContext)
    → (run (url t ∷ es) c).error ≡ false
    → ltb max_url_size (length c.current.path + length t) ≡ false
unfolding run on_url
url-accepted t es c h = elim (Bool-cases (ltb max_url_size (length c.current.path + length t))) [
  | inl e ↦ absurd (let k : true ≡ false = rw e at h in ground arith)
  | inr e ↦ e
]

value-accepted :
    (t : Bytes) (es : List Event) (c : ParseContext)
    → (run (header_value t ∷ es) c).error ≡ false
    → ltb max_header_size (length c.last_value + length t) ≡ false
unfolding run on_header_value
value-accepted t es c h = elim (Bool-cases (ltb max_header_size (length c.last_value + length t))) [
  | inl e ↦ absurd (let k : true ≡ false = rw e at h in ground arith)
  | inr e ↦ e
]

body-accepted :
    (t : Bytes) (es : List Event) (c : ParseContext)
    → (run (body_part t ∷ es) c).error ≡ false
    → ltb max_body_size (length c.current.body + length t) ≡ false
unfolding run on_body
body-accepted t es c h = elim (Bool-cases (ltb max_body_size (length c.current.body + length t))) [
  | inl e ↦ absurd (let k : true ≡ false = rw e at h in ground arith)
  | inr e ↦ e
]

unless_refused-same :
    (go go' : ParseContext → ParseContext) (r : ParseContext × Reply)
    → ((c : ParseContext) → (go c).error ≡ false → go' c ≡ go c)
    → (unless_refused go r).error ≡ false
    → unless_refused go' r ≡ unless_refused go r
unless_refused-same go go' (c, ok) k h = k c h
unless_refused-same go go' (c, user) k h = refl
unless_refused-same go go' (c, paused) k h = k c h

later-same :
    (e : Event) (es fs : List Event) (c : ParseContext)
    → ((d : ParseContext) → (run es d).error ≡ false → run fs d ≡ run es d)
    → (run (e ∷ es) c).error ≡ false
    → run (e ∷ fs) c ≡ run (e ∷ es) c
unfolding run
later-same e es fs c k h = unless_refused-same (run es) (run fs) (handle e c) k h

-- Where the parser cuts a path, a header's value or a body does not matter: a sequence of calls that
-- ends without an error ends the same with one of those texts in two pieces.
pub run-IsCut :
    {es fs : List Event}
    → IsCut es fs
    → (c : ParseContext) → (run es c).error ≡ false
    → run fs c ≡ run es c
run-IsCut (url_cut a b es) c h = url-cut a b es c (url-accepted (a ++ b) es c h)
run-IsCut (value_cut a b es) c h = value-cut a b es c (value-accepted (a ++ b) es c h)
run-IsCut (body_cut a b es) c h = body-cut a b es c (body-accepted (a ++ b) es c h)
run-IsCut (later e es fs cut) c h = later-same e es fs c (run-IsCut cut) h
