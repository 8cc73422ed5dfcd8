-- ===== src/Json/ListTrip.antt =====
-- `valor` of src/odio/json_parse.cpp on the text that `write_json` of src/odio/value.cpp writes for
-- a number, a string or a list.
use mathlib.Core.List.{append_assoc}
use osodio.Prelude.{
  Bytes, ℕ, zero, suc, ◌≤◌, ◌<◌, ◌≡◌, refl, ℤ, pos, negsuc, true, false, ◌||◌, ◌==◌, [], ◌∷◌, ◌++◌,
  arith, ap, ◌∙◌, length, length-append,
}
use osodio.Value.{Value, str, list, Values, nil, cons}
use osodio.Value.Decimal.{digito, digits_of, to_string, digits_of-head}
use osodio.Json.Number.{numero}
use osodio.Value.Escape.Reference.{escapar_bytes}
use osodio.Json.Floats.{Floats}
use osodio.Json.Text.{Parsed, got, espacios}
use osodio.Json.StringTrip.{cadena-escapar_bytes}
use osodio.Json.NumberTrip.{Stops}
use osodio.Json.Write.{write_json, write_list}
use osodio.Json.Parse.{reversed_onto, tras_elemento, lista_desde, lista_en, valor}
use osodio.Json.Fits.{IsText, escapar_of-IsText, Starts, espacios-Starts}

abbrev pub count : Values → ℕ
count nil = 0
count (cons v vs) = suc (count vs)

module _ (fl : Floats) where
  -- A list behind its bracket, from an element on.
  unfoldable pub list_text : Value → Values → Bytes → Bytes
  list_text v vs rest = write_json fl v ++ (write_list fl false vs ++ b']' ∷ rest)

  lista_step :
      (left rounds : ℕ) (v : Value) (vs l : Values) (rest : Bytes)
      → Starts (write_json fl v)
      → valor fl left (list_text v vs rest) ≡ got v (write_list fl false vs ++ b']' ∷ rest)
      → lista_desde (valor fl left) (suc rounds) l (list_text v vs rest)
        ≡ tras_elemento
            (valor fl left)
            (lista_desde (valor fl left) rounds)
            (cons v l)
            (espacios (write_list fl false vs ++ b']' ∷ rest))
  unfolding lista_desde list_text
  lista_step left rounds v vs l rest s e = rw (espacios-Starts (write_json fl v) _ s, e)

  -- A number starts with a digit or with '-'.
  to_string-head :
      (i : ℤ)
      → (c : ℕ) × (tail : Bytes) × (to_string i ≡ c ∷ tail) × ((digito c || c == b'-') ≡ true)
  unfolding to_string
  to_string-head (pos zero) = unfold digits_of in (b'0', [], refl, refl)
  to_string-head (pos (suc n)) =
      let (c, more, e, lo, hi) = digits_of-head (suc n) (suc n) [] (omega arith) (omega arith) in
      (c, more, e, ground arith)
  to_string-head (negsuc n) = (b'-', digits_of (suc n) (suc n) [], refl, refl)

  pub valor-to_string :
      (left : ℕ) (i : ℤ) (rest : Bytes)
      → valor fl (suc left) (to_string i ++ rest) ≡ numero fl (to_string i ++ rest)
  unfolding valor
  valor-to_string left i rest = let (c, tail, e, h) = to_string-head i in rw e (ground arith)

  -- A value reads its own text back, in front of any text that does not go on with a number.
  abbrev pub Reads : ℕ → Value → Type 0
  Reads left v = (rest : Bytes) → Stops rest → valor fl left (write_json fl v ++ rest) ≡ got v rest

  pub str-Reads : (left : ℕ) (s : Bytes) → IsText s → Reads (suc left) (str s)
  unfolding write_json valor
  str-Reads left s h rest k =
      rw (
        escapar_of-IsText s h,
        append_assoc (escapar_bytes s) (b'"' ∷ []) rest,
        cadena-escapar_bytes,
      )

  -- The text behind an element.
  abbrev pub more_text : Values → Bytes → Bytes
  more_text vs rest = write_list fl false vs ++ b']' ∷ rest

  more_text-Stops : (vs : Values) (rest : Bytes) → Stops (more_text vs rest)
  unfolding write_json
  more_text-Stops nil rest = refl
  more_text-Stops (cons v vs) rest = refl

  list_text-cons :
      (v : Value) (vs : Values) (rest : Bytes)
      → more_text (cons v vs) rest ≡ b',' ∷ list_text v vs rest
  unfolding write_json list_text
  list_text-cons v vs rest =
      ap (λ t. b',' ∷ t) (append_assoc (write_json fl v) (write_list fl false vs) (b']' ∷ rest))

  length-write_list :
      (vs : Values) (rest : Bytes) → count vs ≤ length (write_list fl false vs ++ rest)
  unfolding write_json
  length-write_list nil rest = omega arith
  length-write_list (cons v vs) rest =
      rw (append_assoc (write_json fl v) (write_list fl false vs) rest) (
        omega (
          arith,
          length-append (write_json fl v) (write_list fl false vs ++ rest),
          length-write_list vs rest,
        ))

  lista_en-Starts :
      (elemento : Bytes → Parsed Value) (t x : Bytes)
      → Starts t
      → lista_en elemento (espacios (t ++ x))
        ≡ lista_desde elemento (suc (length (t ++ x))) nil (t ++ x)
  lista_en-Starts elemento t x (c, tail, e, h) =
      rw (espacios-Starts t x (c, tail, e, h), e) (ground arith)

  pub list-Reads :
      (left : ℕ) (v : Value) (vs : Values)
      → Starts (write_json fl v)
      → ((rounds : ℕ) (rest : Bytes)
          → count vs < rounds
          → lista_desde (valor fl left) rounds nil (list_text v vs rest)
            ≡ got (list (reversed_onto (cons v nil) vs)) rest)
      → Reads (suc left) (list (cons v vs))
  unfolding valor write_json list_text
  list-Reads left v vs s loop rest k =
      rw
        (
          append_assoc (write_json fl v ++ write_list fl false vs) (b']' ∷ []) rest,
          append_assoc (write_json fl v) (write_list fl false vs) (b']' ∷ rest),
          lista_en-Starts (valor fl left) (write_json fl v) (more_text vs rest) s,
        )
        (loop (suc (length (list_text v vs rest))) rest (
          omega (
            arith,
            length-append (write_json fl v) (more_text vs rest),
            length-write_list vs (b']' ∷ rest),
          )))

  pub list-end :
      (left rounds : ℕ) (v : Value) (l : Values)
      → Reads left v
      → Starts (write_json fl v)
      → (rest : Bytes)
      → lista_desde (valor fl left) (suc rounds) l (list_text v nil rest)
        ≡ got (list (reversed_onto (cons v l) nil)) rest
  list-end left rounds v l reads s rest =
      lista_step left rounds v nil l rest s
        (unfold list_text in reads (more_text nil rest) (more_text-Stops nil rest))
      ∙ (unfold write_json espacios in refl)

  pub list-next :
      (left rounds : ℕ) (v w : Value) (vs l : Values)
      → Reads left v
      → Starts (write_json fl v)
      → (rest : Bytes)
      → lista_desde (valor fl left) (suc rounds) l (list_text v (cons w vs) rest)
        ≡ lista_desde (valor fl left) rounds (cons v l) (list_text w vs rest)
  list-next left rounds v w vs l reads s rest =
      lista_step left rounds v (cons w vs) l rest s
        (unfold list_text in reads (more_text (cons w vs) rest) (more_text-Stops (cons w vs) rest))
      ∙ rw (list_text-cons w vs rest) (unfold espacios in refl)
