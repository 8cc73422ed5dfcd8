-- ===== src/Session/Ascii.antt =====
-- The bytes of the texts that are signed and written.
use osodio.Prelude.{
  Bytes, IsByte, ℕ, suc, ◌/◌, ◌%◌, ◌^◌, ◌≡◌, refl, ℤ, pos, negsuc, Bool, true, false, [], ◌∷◌, ◌++◌,
  All, All-append, arith, ◌==◌, not, all_below, all_below-lt, get_or, Bool-cases, inl, inr,
}
use osodio.Value.{
  Value, null, boolean, integer, str, Values, nil, cons, Entries, end, entry, list, dict,
}
use osodio.Value.Decimal.{to_string, IsDigit, digits_of-All}
use osodio.Value.Escape.{sucio, escape_de, escapar}
use osodio.Value.Escape.Reference.{escapar_bytes}
use osodio.Crypto.Base64.{alphabet, letter, base64url_encode}
use osodio.Json.Floats.{Floats}
use osodio.Json.Write.{is_internal, write_json, write_list, write_dict}
use osodio.Json.Fits.{
  Fits, a_null, a_boolean, an_integer, a_str, a_list, a_dict, FitsList, no_more, and_then, FitsDict,
  no_entry, an_entry, IsText, escapar_of-IsText,
}
use osodio.Session.Token.{NoDot}

letters_NoDot : all_below 64 (λ d. not (get_or alphabet d 0 == b'.')) ≡ true
unfolding all_below alphabet
letters_NoDot = refl

letter-NoDot : (v k : ℕ) → NoDot (letter alphabet v k)
unfolding letter
letter-NoDot v k = ground (arith, all_below-lt 64 _ (v / 2 ^ k % 64) (omega arith) letters_NoDot)

pub base64url_encode-NoDot : (s : Bytes) → All NoDot (base64url_encode s)
unfolding base64url_encode
base64url_encode-NoDot [] = tt
base64url_encode-NoDot (a ∷ []) = (letter-NoDot _ 18, (letter-NoDot _ 12, tt))
base64url_encode-NoDot (a ∷ b ∷ []) =
    (letter-NoDot _ 18, (letter-NoDot _ 12, (letter-NoDot _ 6, tt)))
base64url_encode-NoDot (a ∷ b ∷ c ∷ s) = (
  letter-NoDot _ 18,
  (letter-NoDot _ 12, (letter-NoDot _ 6, (letter-NoDot _ 0, base64url_encode-NoDot s))),
)

digits-IsByte : (s : Bytes) → All IsDigit s → All IsByte s
digits-IsByte [] h = tt
digits-IsByte (c ∷ s) (hc, h) = (ground arith, digits-IsByte s h)

to_string-IsByte : (i : ℤ) → All IsByte (to_string i)
unfolding to_string
to_string-IsByte (pos n) = digits-IsByte _ (digits_of-All n n [] tt)
to_string-IsByte (negsuc n) = (omega arith, digits-IsByte _ (digits_of-All (suc n) (suc n) [] tt))

escape_de-IsByte : (c : ℕ) → All IsByte (escape_de c)
unfolding escape_de
escape_de-IsByte c = ground arith

escapar_bytes-IsByte : (s : Bytes) → All IsByte s → All IsByte (escapar_bytes s)
unfolding escapar_bytes
escapar_bytes-IsByte [] h = tt
escapar_bytes-IsByte (c ∷ s) (hc, h) = elim (Bool-cases (sucio c)) [
  | inl e ↦ rw e (
      All-append IsByte (escape_de c) (escapar_bytes s) (escape_de-IsByte c)
        (escapar_bytes-IsByte s h))
  | inr e ↦ rw e (hc, escapar_bytes-IsByte s h)
]

escapar-IsByte : (s : Bytes) → IsText s → All IsByte (escapar s)
escapar-IsByte s (h, v) = rw (escapar_of-IsText s (h, v)) (
  omega arith,
  All-append IsByte (escapar_bytes s) (b'"' ∷ []) (escapar_bytes-IsByte s h) (omega arith),
)

entry-IsByte :
    (k t more : Bytes)
    → IsText k
    → All IsByte t
    → All IsByte more
    → All IsByte ((escapar k ++ b':' ∷ t) ++ more)
entry-IsByte k t more hk ht h =
    All-append IsByte (escapar k ++ b':' ∷ t) more
      (All-append IsByte (escapar k) (b':' ∷ t) (escapar-IsByte k hk) (omega arith, ht)) h

module _ (fl : Floats) where
  list-IsByte :
      (primero : Bool) (v : Value) (vs : Values)
      → All IsByte (write_json fl v)
      → All IsByte (write_list fl false vs)
      → All IsByte (write_list fl primero (cons v vs))
  unfolding write_json
  list-IsByte true v vs h hs = All-append IsByte (write_json fl v) (write_list fl false vs) h hs
  list-IsByte false v vs h hs =
      (omega arith, All-append IsByte (write_json fl v) (write_list fl false vs) h hs)

  dict-IsByte :
      (primero : Bool) (k : Bytes) (v : Value) (es : Entries)
      → IsText k
      → is_internal k ≡ false
      → All IsByte (write_json fl v)
      → All IsByte (write_dict fl false es)
      → All IsByte (write_dict fl primero (entry k v es))
  unfolding write_json
  dict-IsByte true k v es hk i h hs =
      rw i (entry-IsByte k (write_json fl v) (write_dict fl false es) hk h hs)
  dict-IsByte false k v es hk i h hs =
      rw i (omega arith, entry-IsByte k (write_json fl v) (write_dict fl false es) hk h hs)

  null-IsByte : All IsByte (write_json fl null)
  unfolding write_json
  null-IsByte = omega arith

  boolean-IsByte : (b : Bool) → All IsByte (write_json fl (boolean b))
  unfolding write_json
  boolean-IsByte true = omega arith
  boolean-IsByte false = omega arith

  integer-IsByte : (i : ℤ) → All IsByte (write_json fl (integer i))
  unfolding write_json
  integer-IsByte i = to_string-IsByte i

  str-IsByte : (s : Bytes) → IsText s → All IsByte (write_json fl (str s))
  unfolding write_json
  str-IsByte s h = escapar-IsByte s h

  closed_list-IsByte :
      (vs : Values) → All IsByte (write_list fl true vs) → All IsByte (write_json fl (list vs))
  unfolding write_json
  closed_list-IsByte vs h =
      (omega arith, All-append IsByte (write_list fl true vs) (b']' ∷ []) h (omega arith))

  closed_dict-IsByte :
      (es : Entries) → All IsByte (write_dict fl true es) → All IsByte (write_json fl (dict es))
  unfolding write_json
  closed_dict-IsByte es h =
      (omega arith, All-append IsByte (write_dict fl true es) (b'}' ∷ []) h (omega arith))

  no_list-IsByte : (primero : Bool) → All IsByte (write_list fl primero nil)
  unfolding write_json
  no_list-IsByte primero = tt

  no_dict-IsByte : (primero : Bool) → All IsByte (write_dict fl primero end)
  unfolding write_json
  no_dict-IsByte primero = tt

  mutual
    pub write_json-IsByte : {left : ℕ} {v : Value} → Fits left v → All IsByte (write_json fl v)
    write_json-IsByte a_null = null-IsByte
    write_json-IsByte (a_boolean b) = boolean-IsByte b
    write_json-IsByte (an_integer i h) = integer-IsByte i
    write_json-IsByte (a_str s h) = str-IsByte s h
    write_json-IsByte (a_list {vs} h) = closed_list-IsByte vs (write_list-IsByte h true)
    write_json-IsByte (a_dict {es} h) = closed_dict-IsByte es (write_dict-IsByte h true)

    write_list-IsByte :
        {left : ℕ} {vs : Values}
        → FitsList left vs
        → (primero : Bool) → All IsByte (write_list fl primero vs)
    write_list-IsByte no_more primero = no_list-IsByte primero
    write_list-IsByte (and_then {v} {vs} h hs) primero =
        list-IsByte primero v vs (write_json-IsByte h) (write_list-IsByte hs false)

    write_dict-IsByte :
        {left : ℕ} {d es : Entries}
        → FitsDict left d es
        → (primero : Bool) → All IsByte (write_dict fl primero es)
    write_dict-IsByte no_entry primero = no_dict-IsByte primero
    write_dict-IsByte (an_entry {es} {v} k hk i new h hs) primero =
        dict-IsByte primero k v es hk i (write_json-IsByte h) (write_dict-IsByte hs false)
