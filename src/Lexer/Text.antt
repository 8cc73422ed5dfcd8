-- ===== src/Lexer/Text.antt =====
-- The texts of numbers, identifiers and strings of src/odio/lexer.cpp.
use osodio.Prelude.{
  Bytes, bytes, ℕ, suc, ◌-◌, Bool, true, false, not, ◌&&◌, ◌||◌, List, [], ◌∷◌, ◌++◌, Option, none,
  some, ltb, leb, ◌==◌, if◌then◌else◌, drop, map, any,
}
use osodio.Vm.Code.{SourceLoc}
use osodio.Lexer.Token.{int, float, string, keyword_or_ident}
use osodio.Lexer.State.{Lexer, peek, advance, push, report}

abbrev pub is_digit : ℕ → Bool
is_digit c = leb b'0' c && leb c b'9'

-- A letter, an underscore, or a byte above 127.
abbrev pub is_ident_start : ℕ → Bool
is_ident_start c = leb b'a' c && leb c b'z' || leb b'A' c && leb c b'Z' || c == b'_' || leb 0x80 c

abbrev pub is_ident_char : ℕ → Bool
is_ident_char c = is_ident_start c || is_digit c

-- `while (p(peek())) text += advance();`, over the text that is left.
unfoldable pub read_while : (ℕ → Bool) → Bytes → Lexer → Bytes × Lexer
read_while p [] s = ([], s)
read_while p (c ∷ r) s =
    let (text, s') = read_while p r (advance s) in if p c then (c ∷ text, s') else ([], s)

unfoldable pub skip_line_comment : Lexer → Lexer
skip_line_comment s = (read_while (λ c. not (c == b'\n')) s.rest s).1

unfoldable pub lex_number : SourceLoc → Lexer → Lexer
lex_number loc s =
    let (whole, s₁) = read_while is_digit s.rest s in
    if peek 0 s₁ == b'.' && is_digit (peek 1 s₁)
    then (let (part, s₂) = read_while is_digit (advance s₁).rest (advance s₁) in
        push float loc (whole ++ b'.' ∷ part) s₂)
    else push int loc whole s₁

unfoldable pub lex_ident : SourceLoc → Lexer → Lexer
lex_ident loc s =
    let (text, s') = read_while is_ident_char s.rest s in push (keyword_or_ident text) loc text s'

unfoldable pub escape_de : ℕ → Option ℕ
escape_de e =
    if e == b'n'
    then some b'\n'
    else if e == b't'
    then some b'\t'
    else if e == b'r'
    then some b'\r'
    else if e == b'0'
    then some 0
    else if e == b'"' || e == b'\\'
    then some e
    else none

abbrev pub escaped : ℕ → ℕ
escaped e = elim (escape_de e) [ none ↦ e | some d ↦ d ]

abbrev pub unknown_escape : ℕ → SourceLoc → Lexer → Lexer
unknown_escape e loc s = elim (escape_de e) [
  | none ↦ report loc (bytes "escape desconocido: \\" ++ e ∷ []) s
  | some d ↦ s
]

abbrev pub unclosed : SourceLoc → Lexer → Lexer
unclosed loc s = report loc (bytes "cadena sin cerrar") s

-- The rest of a string of one line, behind its opening quote.
unfoldable pub string_body : SourceLoc → Bytes → Lexer → Bytes × Lexer
string_body loc [] s = ([], unclosed loc s)
string_body loc (c ∷ []) s =
    if c == b'\n'
    then ([], unclosed loc s)
    else if c == b'"'
    then ([], advance s)
    else if c == b'\\'
    then ([], unclosed loc (advance s))
    else (c ∷ [], unclosed loc (advance s))
string_body loc (c ∷ e ∷ r) s =
    if c == b'\n'
    then ([], unclosed loc s)
    else if c == b'"'
    then ([], advance s)
    else elim (c == b'\\') [
      | true ↦
          let s₁ = advance (advance s) in
          let (value, s₂) =
            string_body loc r (unknown_escape e (record { line = s₁.line; col = s₁.col - 1 }) s₁) in
          (escaped e ∷ value, s₂)
      | false ↦ let (value, s₂) = string_body loc (e ∷ r) (advance s) in (c ∷ value, s₂)
    ]

-- The lines of a text.
unfoldable pub lines : Bytes → Bytes → List Bytes
lines line [] = line ∷ []
lines line (c ∷ s) = elim (c == b'\n') [
  | true ↦ line ∷ lines [] s
  | false ↦ lines (line ++ c ∷ []) s
]

unfoldable pub unlines : List Bytes → Bytes
unlines [] = []
unlines (l ∷ []) = l
unlines (l ∷ m ∷ ls) = l ++ b'\n' ∷ unlines (m ∷ ls)

abbrev pub is_blank : ℕ → Bool
is_blank c = c == b' ' || c == b'\t' || c == b'\r'

-- A line that follows another one and is blank is dropped at the end.
unfoldable pub drop_blank_last : List Bytes → List Bytes
drop_blank_last [] = []
drop_blank_last (l ∷ []) = l ∷ []
drop_blank_last (l ∷ m ∷ []) = if any (λ c. not (is_blank c)) m then l ∷ m ∷ [] else l ∷ []
drop_blank_last (l ∷ m ∷ n ∷ ls) = l ∷ drop_blank_last (m ∷ n ∷ ls)

-- The spaces before the first other character, if there is one that is not a carriage return.
unfoldable pub margin_of : Bytes → Option ℕ
margin_of [] = none
margin_of (c ∷ l) =
    let further = margin_of l in
    if c == b' '
    then elim further [ none ↦ none | some n ↦ some (suc n) ]
    else if c == b'\r'
    then none
    else some 0

abbrev pub lesser : Option ℕ → Option ℕ → Option ℕ
lesser none n = n
lesser (some m) none = some m
lesser (some m) (some n) = if ltb m n then some m else some n

unfoldable pub common_margin : List Bytes → Option ℕ
common_margin [] = none
common_margin (l ∷ ls) = lesser (margin_of l) (common_margin ls)

unfoldable pub without_first_break : Bytes → Bytes
without_first_break [] = []
without_first_break (c ∷ []) = if c == b'\n' then [] else c ∷ []
without_first_break (c ∷ d ∷ s) =
    if c == b'\r' && d == b'\n' then s else if c == b'\n' then d ∷ s else c ∷ d ∷ s

unfoldable pub sin_margen : Bytes → Bytes
sin_margen s =
    let ls = drop_blank_last (lines [] (without_first_break s)) in
    elim (common_margin ls) [ none ↦ unlines ls | some n ↦ unlines (map (drop n) ls) ]

-- The escapes of a text without its margin; an unknown one is reported at the opening quotes.
unfoldable pub unescape : SourceLoc → Bytes → Lexer → Bytes × Lexer
unescape loc [] s = ([], s)
unescape loc (c ∷ []) s = (c ∷ [], s)
unescape loc (c ∷ e ∷ r) s = elim (c == b'\\') [
  | true ↦ let (value, s') = unescape loc r (unknown_escape e loc s) in (escaped e ∷ value, s')
  | false ↦ let (value, s') = unescape loc (e ∷ r) s in (c ∷ value, s')
]

abbrev pub quotes : Bytes → Bool
quotes (c ∷ d ∷ e ∷ r) = c == b'"' && d == b'"' && e == b'"'
quotes _ = false

-- The text up to three quotes; a backslash and what follows it stay together.
unfoldable pub raw_text : Bytes → Lexer → Bytes × Bool × Lexer
raw_text [] s = ([], false, s)
raw_text (c ∷ []) s = (c ∷ [], false, advance s)
raw_text (c ∷ e ∷ r) s =
    if quotes (c ∷ e ∷ r) then ([], true, advance (advance (advance s))) else elim (c == b'\\') [
      | true ↦
          let (text, closed, s') = raw_text r (advance (advance s)) in (c ∷ e ∷ text, closed, s')
      | false ↦ let (text, closed, s') = raw_text (e ∷ r) (advance s) in (c ∷ text, closed, s')
    ]

unfoldable pub lex_string_multi : SourceLoc → Lexer → Lexer
lex_string_multi loc s =
    let opened = advance (advance (advance s)) in
    let (bruto, cerrada, s₁) = raw_text opened.rest opened in
    let s₂ =
      (if cerrada
        then s₁
        else report loc (bytes "cadena sin cerrar: faltan las tres comillas del final") s₁) in
    let (value, s₃) = unescape loc (sin_margen bruto) s₂ in push string loc value s₃

unfoldable pub lex_string : SourceLoc → Lexer → Lexer
lex_string loc s =
    if peek 1 s == b'"' && peek 2 s == b'"'
    then lex_string_multi loc s
    else (let (value, s') = string_body loc (advance s).rest (advance s) in
        push string loc value s')
