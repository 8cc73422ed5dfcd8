-- ===== src/Json/RoundTrip.antt =====
-- `Value::parse_json` of src/odio/json_parse.cpp on the text of `write_json` of src/odio/value.cpp.
use mathlib.Core.List.{append-nil}
use mathlib.Core.Path.{sym}
use osodio.Prelude.{
  Bytes, Bool, ℤ, ℕ, zero, suc, ◌<◌, ◌≡◌, refl, true, false, some, [], arith, ◌∙◌, ap,
}
use osodio.Value.{
  Value, null, boolean, integer, list, dict, Values, nil, cons, Entries, end, assign,
}
use osodio.Value.Decimal.{InRange}
use osodio.Json.Floats.{Floats}
use osodio.Json.Text.{got, espacios, literal}
use osodio.Json.NumberTrip.{numero-to_string}
use osodio.Json.Write.{write_json}
use osodio.Json.Parse.{reversed_onto, lista_desde, objeto_desde, valor, documento, parse_json}
use osodio.Json.Fits.{
  Fits, a_null, a_boolean, an_integer, a_str, a_list, a_dict, FitsList, no_more, and_then, FitsDict,
  no_entry, an_entry, Starts, write_json-Starts, espacios-Starts,
}
use osodio.Json.ListTrip.{
  count, list_text, Reads, valor-to_string, str-Reads, list-Reads, list-end, list-next,
}
use osodio.Json.DictTrip.{
  size, onto, onto-end, onto-assign, entry_text, dict-Reads, dict-end, dict-next,
}

module _ (fl : Floats) where
  null-Reads : (left : ℕ) → Reads fl (suc left) null
  null-Reads left rest k = unfold write_json valor literal in refl

  boolean-Reads : (left : ℕ) (b : Bool) → Reads fl (suc left) (boolean b)
  boolean-Reads left true rest k = unfold write_json valor literal in refl
  boolean-Reads left false rest k = unfold write_json valor literal in refl

  integer-Reads : (left : ℕ) (i : ℤ) → InRange i → Reads fl (suc left) (integer i)
  integer-Reads left i h rest k =
      unfold write_json in (valor-to_string fl left i rest ∙ numero-to_string fl i rest h k)

  empty_list-Reads : (left : ℕ) → Reads fl (suc left) (list nil)
  empty_list-Reads left rest k = unfold write_json valor espacios in refl

  empty_dict-Reads : (left : ℕ) → Reads fl (suc left) (dict end)
  empty_dict-Reads left rest k = unfold write_json valor espacios in refl

  mutual
    valor-write_json : {left : ℕ} {v : Value} → Fits left v → Reads fl left v
    valor-write_json (a_null {left}) = null-Reads left
    valor-write_json (a_boolean {left} b) = boolean-Reads left b
    valor-write_json (an_integer {left} i h) = integer-Reads left i h
    valor-write_json (a_str {left} s h) = str-Reads fl left s h
    valor-write_json (a_list (no_more {left})) = empty_list-Reads left
    valor-write_json (a_list (and_then {left} {v} {vs} hv h)) =
        let s = write_json-Starts fl hv in
        list-Reads fl left v vs s (lista-write_list h v nil (valor-write_json hv) s)
    valor-write_json (a_dict (no_entry {left})) = empty_dict-Reads left
    valor-write_json (a_dict (an_entry {left} {es} {v} k h i new hv hes)) =
        dict-Reads fl k v h i hes
          (objeto-write_dict hes k v end refl (valor-write_json hv) (write_json-Starts fl hv))

    lista-write_list :
        {left : ℕ} {vs : Values}
        → FitsList left vs
        → (v : Value) (l : Values) → Reads fl left v
        → Starts (write_json fl v)
        → (rounds : ℕ) (rest : Bytes) → count vs < rounds
        → lista_desde (valor fl left) rounds l (list_text fl v vs rest)
          ≡ got (list (reversed_onto (cons v l) vs)) rest
    lista-write_list h v l reads s zero rest k = absurd (omega arith)
    lista-write_list (no_more {left}) v l reads s (suc rounds) rest k =
        list-end fl left rounds v l reads s rest
    lista-write_list (and_then {left} {v = w} {vs} hw h) v l reads s (suc rounds) rest k =
        list-next fl left rounds v w vs l reads s rest
        ∙ lista-write_list h w (cons v l) (valor-write_json hw) (write_json-Starts fl hw) rounds
            rest (omega arith)

    objeto-write_dict :
        {left : ℕ} {all es : Entries}
        → FitsDict left all es
        → (k : Bytes) (v : Value) (d : Entries) → all ≡ assign k v d
        → Reads fl left v
        → Starts (write_json fl v)
        → (rounds : ℕ) (rest : Bytes) → size es < rounds
        → objeto_desde (valor fl left) rounds d (entry_text fl k v es rest)
          ≡ got (dict (onto all es)) rest
    objeto-write_dict h k v d e reads s zero rest h' = absurd (omega arith)
    objeto-write_dict (no_entry {left} {d = all}) k v d e reads s (suc rounds) rest h' =
        dict-end fl left rounds k v d reads s rest
        ∙ ap (λ t. got (dict t) rest) (sym e ∙ sym (onto-end all))
    objeto-write_dict (an_entry {left} {d = all} {es} {v = w} j hj i new hw h) k v d e reads s
          (suc rounds) rest h' =
        dict-next fl left rounds k j v w es d hj i reads s rest
        ∙ ap (λ t. objeto_desde (valor fl left) rounds t (entry_text fl j w es rest)) (sym e)
        ∙ objeto-write_dict h j w all refl (valor-write_json hw) (write_json-Starts fl hw) rounds
            rest (omega arith)
        ∙ ap (λ t. got (dict t) rest) (onto-assign all j w es new)

  -- A value without floats, whose texts are valid UTF-8, whose integers fit a `long long`, whose
  -- keys are distinct and not internal, and whose nesting stays within the parser's limit of 200, is
  -- read back whole from the JSON text that is written for it.
  pub parse_json-write_json : (v : Value) → Fits 201 v → parse_json fl (write_json fl v) ≡ some v
  unfolding parse_json documento
  parse_json-write_json v h =
      let start =
        rw (append-nil (write_json fl v)) at
          (espacios-Starts (write_json fl v) [] (write_json-Starts fl h)) in
      let read = rw (append-nil (write_json fl v)) at (valor-write_json h [] tt) in
      rw (start, read) (unfold espacios in refl)
