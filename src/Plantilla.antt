-- ===== src/Plantilla.antt =====
-- The text functions of src/odio/plantilla.cpp. The bytes between two escapes are copied one by one
-- here, and in one go in the source.
pub mod Html
mod Tests
use osodio.Prelude.{
  Bytes, bytes, ℕ, Bool, true, false, ◌&&◌, ◌||◌, List, [], ◌∷◌, ◌++◌, ◌==◌, if◌then◌else◌,
}

-- What a byte is replaced by.
unfoldable pub entity : ℕ → Bytes
entity c =
    if c == b'&'
    then bytes "&amp;"
    else if c == b'<'
    then bytes "&lt;"
    else if c == b'>'
    then bytes "&gt;"
    else if c == b'"'
    then bytes "&quot;"
    else if c == 0x27
    then bytes "&#39;"
    else c ∷ []

unfoldable pub escapar_html : Bytes → Bytes
escapar_html [] = []
escapar_html (c ∷ s) = entity c ++ escapar_html s

abbrev pub is_blank : ℕ → Bool
is_blank c = c == b' ' || c == 0x09 || c == 0x0A || c == 0x0D

abbrev pub is_empty : Bytes → Bool
is_empty [] = true
is_empty (c ∷ s) = false

-- Without the space at the end.
unfoldable pub recortar_izq : Bytes → Bytes
recortar_izq [] = []
recortar_izq (c ∷ t) =
    let rest = recortar_izq t in if is_empty rest && is_blank c then [] else c ∷ rest

-- The text from the first byte that is no space.
unfoldable pub recortar_der : Bytes → Bytes
recortar_der [] = []
recortar_der (c ∷ t) = let rest = recortar_der t in if is_blank c then rest else c ∷ t

unfoldable pub trim : Bytes → Bytes
trim s = recortar_izq (recortar_der s)
