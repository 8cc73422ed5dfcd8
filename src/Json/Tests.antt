-- ===== src/Json/Tests.antt =====
-- Runs of the JSON writer and parser of src/odio/value.cpp and src/odio/json_parse.cpp.
use osodio.Prelude.{bytes_eq, ◌≡◌, refl, bytes, some, arith, negsuc}
use osodio.Value.{Value, null, integer, str, list, dict, nil, cons, end, entry, assign, find}
use osodio.Value.Utf8.{utf8_valido}
use osodio.Json.Floats.{Floats}
use osodio.Json.Write.{write_json}
use osodio.Json.Parse.{parse_json}
use osodio.Json.Fits.{
  Fits, an_integer, a_null, a_str, a_list, a_dict, no_more, and_then, no_entry, an_entry,
}
use osodio.Json.RoundTrip.{parse_json-write_json}

-- A library of floats that knows one of them.
abbrev one_and_a_half : Floats
one_and_a_half = record {
  to_chars = λ d. some (bytes "1.5");
  from_chars = λ t. some 0x3FF8000000000000;
}

-- `{"id": -7, "tags": ["a", null]}`
abbrev document : Value
document = dict (
    entry (bytes "id") (integer (negsuc 6))
      (entry (bytes "tags") (list (cons (str (bytes "a")) (cons null nil))) end))

document-Fits : Fits 201 document
unfolding find assign bytes_eq utf8_valido
document-Fits = a_dict (
    an_entry (bytes "id") (omega arith, refl) refl refl (an_integer (negsuc 6) (omega arith))
      (an_entry (bytes "tags") (omega arith, refl) refl refl
        (a_list (and_then (a_str (bytes "a") (omega arith, refl)) (and_then a_null no_more)))
        no_entry))

parse_json-write_json_example :
    parse_json one_and_a_half (write_json one_and_a_half document) ≡ some document
parse_json-write_json_example = parse_json-write_json one_and_a_half document document-Fits
