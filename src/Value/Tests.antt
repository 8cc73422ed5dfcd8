-- ===== src/Value/Tests.antt =====
-- Runs of the UTF-8, escape and number functions of src/odio/value.cpp.
use osodio.Prelude.{Bytes}
use osodio.Prelude.{
  ℕ, replicate, bytes_eq, ◌≡◌, refl, bytes, false, [], ◌∷◌, ◌++◌, arith, All, negsuc,
}
use osodio.StringMap.{lookup, insert, emplace}
use osodio.Value.Dict.{Dict, position, index_from, find_position, set_key}
use osodio.Value.Dict.Refinement.{IsIndexed, set_key-refines}
use osodio.Value.Decimal.{to_string, digits_of}
use osodio.Value.Swar.{word, bloque_sucio, bloque_ascii, IsClean, bloque_sucio-IsClean}
use osodio.Value.Utf8.{utf8_valido, largo_utf8, sanear_utf8, secuencias}
use osodio.Value.Utf8.Valid.{utf8_valido-secuencias}
use osodio.Value.Utf8.Standard.{IsUtf8, ends, follows, two, four_f4}
use osodio.Value.Utf8.Repair.{sanear_utf8-IsUtf8, sanear_utf8_of_IsUtf8}
use osodio.Value.Escape.{escapar, escapar_desde, paso, escape_de, escapar_valido}
use osodio.Value.Escape.Reference.{escapar_bytes, escapar_valido-bytes}

runs : Unit {0}
unfolding to_string digits_of escapar_desde paso escape_de word bloque_sucio bloque_ascii
    utf8_valido sanear_utf8 secuencias largo_utf8 escapar escapar_valido escapar_bytes
runs = tt

minus_twelve : to_string (negsuc 11) ≡ bytes "-12"
unfolding runs
minus_twelve = refl

-- An overlong slash, a surrogate and a code point above U+10FFFF.
overlong : utf8_valido (0xC0 ∷ 0xAF ∷ []) ≡ false
unfolding runs
overlong = refl

surrogate : utf8_valido (0xED ∷ 0xA0 ∷ 0x80 ∷ []) ≡ false
unfolding runs
surrogate = refl

too_large : utf8_valido (0xF4 ∷ 0x90 ∷ 0x80 ∷ 0x80 ∷ []) ≡ false
unfolding runs
too_large = refl

replaced : sanear_utf8 (b'a' ∷ 0xFF ∷ b'b' ∷ []) ≡ b'a' ∷ 0xEF ∷ 0xBF ∷ 0xBD ∷ b'b' ∷ []
unfolding runs
replaced = refl

escaped_quote : escapar (b'a' ∷ b'"' ∷ []) ≡ b'"' ∷ b'a' ∷ 0x5C ∷ b'"' ∷ b'"' ∷ []
unfolding runs
escaped_quote = refl

control : escapar (1 ∷ []) ≡ b'"' ∷ 0x5C ∷ b'u' ∷ (bytes "0001" ++ b'"' ∷ [])
unfolding runs
control = refl

bloque_sucio-IsClean_example : All IsClean (bytes "abcdefgh")
bloque_sucio-IsClean_example =
    bloque_sucio-IsClean (bytes "abcdefgh") refl (omega arith) (unfold word bloque_sucio in refl)

utf8_valido-secuencias_example : utf8_valido (0xC3 ∷ 0xB1 ∷ []) ≡ secuencias 0 (0xC3 ∷ 0xB1 ∷ [])
utf8_valido-secuencias_example = utf8_valido-secuencias (0xC3 ∷ 0xB1 ∷ []) (omega arith)

sanear_utf8-IsUtf8_example : IsUtf8 (sanear_utf8 (0xC3 ∷ 0xFF ∷ []))
sanear_utf8-IsUtf8_example = sanear_utf8-IsUtf8 (0xC3 ∷ 0xFF ∷ []) (omega arith)

-- A letter of two bytes and the last code point.
abbrev last_point : Bytes
last_point = 0xC3 ∷ 0xB1 ∷ 0xF4 ∷ 0x8F ∷ 0xBF ∷ 0xBF ∷ []

last_point-IsUtf8 : IsUtf8 last_point
last_point-IsUtf8 =
    follows (two (omega arith) (omega arith) (omega arith))
      (follows (four_f4 (omega arith) (omega arith) (omega arith) (omega arith)) ends)

sanear_utf8_of_IsUtf8_example : sanear_utf8 last_point ≡ last_point
sanear_utf8_of_IsUtf8_example = sanear_utf8_of_IsUtf8 last_point last_point-IsUtf8

escapar_valido-bytes_example :
    escapar_valido (b'a' ∷ 9 ∷ b'"' ∷ [])
    ≡ b'"' ∷ (escapar_bytes (b'a' ∷ 9 ∷ b'"' ∷ []) ++ b'"' ∷ [])
escapar_valido-bytes_example = escapar_valido-bytes (b'a' ∷ 9 ∷ b'"' ∷ []) (omega arith)

abbrev one_entry : Dict ℕ
one_entry = record { entries = (bytes "a", 1) ∷ []; index = [] }

one_entry-IsIndexed : IsIndexed one_entry
unfolding find_position
one_entry-IsIndexed = λ k. refl

set_key-refines_example :
    IsIndexed (set_key (bytes "b") 2 one_entry)
    × ((set_key (bytes "b") 2 one_entry).entries ≡ insert (bytes "b") 2 ((bytes "a", 1) ∷ []))
set_key-refines_example = set_key-refines (bytes "b") 2 one_entry one_entry-IsIndexed

-- The index of an entry, once there are more than 16.
indexed :
    (set_key (bytes "q") 16 (record one_entry { entries = replicate 16 (bytes "a", 1) })).index
    ≡ (bytes "a", 0) ∷ (bytes "q", 16) ∷ []
unfolding set_key find_position position index_from emplace lookup insert bytes_eq
indexed = refl
