-- ===== src/Plantilla/Html.antt =====
-- The escaped text of src/odio/plantilla.cpp.
use osodio.Prelude.{Bytes, ℕ, ◌≡◌, false, ◌||◌, [], ◌∷◌, All, All-append, ◌==◌, arith}
use osodio.Plantilla.{entity, escapar_html}

-- A byte that does not open or close a tag or an attribute.
abbrev pub IsInert : ℕ → Type 0
IsInert c = (c == b'<' || c == b'>' || c == b'"' || c == 0x27) ≡ false

entity-All : (c : ℕ) → All IsInert (entity c)
unfolding entity
entity-All c = ground arith

-- Whatever the text, what is written of it has no byte that opens or closes a tag or an attribute.
pub escapar_html-IsInert : (s : Bytes) → All IsInert (escapar_html s)
unfolding escapar_html
escapar_html-IsInert [] = tt
escapar_html-IsInert (c ∷ s) =
    All-append IsInert (entity c) (escapar_html s) (entity-All c) (escapar_html-IsInert s)
