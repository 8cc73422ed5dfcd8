-- ===== src/Plantilla/Tests.antt =====
-- Runs of the text functions of src/odio/plantilla.cpp.
use osodio.Prelude.{bytes, ◌≡◌, refl, All}
use osodio.Plantilla.{entity, escapar_html, recortar_izq, recortar_der, trim}
use osodio.Plantilla.Html.{IsInert, escapar_html-IsInert}

script : escapar_html (bytes "<b>a&b</b>") ≡ bytes "&lt;b&gt;a&amp;b&lt;/b&gt;"
unfolding escapar_html entity
script = refl

trimmed : trim (bytes "  a b ") ≡ bytes "a b"
unfolding trim recortar_izq recortar_der
trimmed = refl

escapar_html-IsInert_example : All IsInert (escapar_html (bytes "<b>a&b</b>"))
escapar_html-IsInert_example = escapar_html-IsInert (bytes "<b>a&b</b>")
