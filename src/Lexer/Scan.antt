-- ===== src/Lexer/Scan.antt =====
-- `lex_token` and `handle_line_start` of src/odio/lexer.cpp.
use osodio.Prelude.{
  Bytes, bytes, ℕ, zero, suc, ◌+◌, ◌-◌, Bool, true, false, not, ◌&&◌, ◌||◌, List, [], ◌∷◌, ◌++◌,
  Option, none, some, ltb, ◌==◌, if◌then◌else◌, get_or,
}
use osodio.Vm.Code.{SourceLoc}
use osodio.Lexer.Token.{
  Tok, indent, dedent, l_paren, r_paren, l_bracket, r_bracket, l_brace, r_brace, comma, colon, dot,
  question, arrow, assign, eq, not_eq, lt, lt_eq, gt, gt_eq, plus, minus, star, slash, percent,
  plus_plus, minus_minus, plus_eq, minus_eq, star_eq, slash_eq, percent_eq, is_newline,
}
use osodio.Lexer.State.{Lexer, peek, advance, here, push, report}
use osodio.Lexer.Text.{
  is_digit, is_ident_start, skip_line_comment, lex_number, lex_ident, lex_string,
}

-- What one or two characters stand for.
pub data Sign : Type 0 where
  opens closes plain : Tok → Sign
  wide : Tok → Sign
  lone_bang stray : Sign

-- `second` is the next character: a `wide` sign takes it too.
unfoldable pub sign : (c second : ℕ) → Sign
sign c second =
    if c == b'('
    then opens l_paren
    else if c == b')'
    then closes r_paren
    else if c == b'['
    then opens l_bracket
    else if c == b']'
    then closes r_bracket
    else if c == b'{'
    then opens l_brace
    else if c == b'}'
    then closes r_brace
    else if c == b','
    then plain comma
    else if c == b':'
    then plain colon
    else if c == b'.'
    then plain dot
    else if c == b'?'
    then plain question
    else if c == b'+'
    then (if second == b'+'
        then wide plus_plus
        else if second == b'='
        then wide plus_eq
        else plain plus)
    else if c == b'*'
    then (if second == b'=' then wide star_eq else plain star)
    else if c == b'/'
    then (if second == b'=' then wide slash_eq else plain slash)
    else if c == b'%'
    then (if second == b'=' then wide percent_eq else plain percent)
    else if c == b'-'
    then (if second == b'>'
        then wide arrow
        else if second == b'-'
        then wide minus_minus
        else if second == b'='
        then wide minus_eq
        else plain minus)
    else if c == b'='
    then (if second == b'=' then wide eq else plain assign)
    else if c == b'!'
    then (if second == b'=' then wide not_eq else lone_bang)
    else if c == b'<'
    then (if second == b'=' then wide lt_eq else plain lt)
    else if c == b'>'
    then (if second == b'=' then wide gt_eq else plain gt)
    else stray

-- The sign at `loc`, whose first character is behind.
unfoldable pub lex_sign : ℕ → SourceLoc → Sign → Lexer → Lexer
lex_sign c loc (opens t) s = push t loc [] (record s { bracket_depth = suc s.bracket_depth })
lex_sign c loc (closes t) s = push t loc [] (record s { bracket_depth = s.bracket_depth - 1 })
lex_sign c loc (plain t) s = push t loc [] s
lex_sign c loc (wide t) s = push t loc [] (advance s)
lex_sign c loc lone_bang s = report loc (bytes "'!' suelto: la negacion se escribe 'not'") s
lex_sign c loc stray s = report loc (bytes "caracter inesperado: '" ++ c ∷ bytes "'") s

unfoldable pub lex_token : Lexer → Lexer
lex_token s =
    let c = peek 0 s in
    if is_digit c
    then lex_number (here s) s
    else if c == b'"'
    then lex_string (here s) s
    else if is_ident_start c
    then lex_ident (here s) s
    else lex_sign c (here s) (sign c (peek 0 (advance s))) (advance s)

-- The blanks at the start of a line: how many, whether a tab is among them, and what follows.
unfoldable pub blanks : Bytes → ℕ × Bool × Bytes
blanks [] = (0, false, [])
blanks (c ∷ r) =
    let (width, tabs, more) = blanks r in
    if c == b' '
    then (suc width, tabs, more)
    else if c == b'\t'
    then (suc width, true, more)
    else (0, false, c ∷ r)

-- `while (pos_ < scan) advance();`
unfoldable pub advance_over : ℕ → Lexer → Lexer
advance_over zero s = s
advance_over (suc n) s = advance_over n (advance s)

-- The rest of a line without tokens.
unfoldable pub skip_line : Lexer → Lexer
skip_line s =
    let s₁ = (if peek 0 s == b'#' then skip_line_comment s else s) in
    let s₂ = (if peek 0 s₁ == b'\r' then advance s₁ else s₁) in
    if peek 0 s₂ == b'\n' then advance s₂ else s₂

-- The widths that are more than `width` are closed, each with a `Dedent`.
unfoldable pub close_wider : ℕ → SourceLoc → List ℕ → Lexer → Lexer
close_wider width loc [] s = s
close_wider width loc (w ∷ ws) s =
    let closed = close_wider width loc ws (push dedent loc [] (record s { indents = ws })) in
    if ltb width w then closed else s

abbrev pub innermost : Lexer → ℕ
innermost s = get_or s.indents 0 0

-- The width of a line with tokens is compared with the open ones.
unfoldable pub set_width : ℕ → Lexer → Lexer
set_width width s =
    if ltb (innermost s) width
    then push indent (here s) [] (record s { indents = width ∷ s.indents })
    else (let closed = close_wider width (here s) s.indents s in
        if width == innermost closed
        then closed
        else report (here s) (bytes "la indentacion no coincide con ningun nivel abierto")
            (record closed { indents = width ∷ closed.indents }))

-- A line that starts with a dot goes on with the one before: its `Newline` is taken back.
unfoldable pub take_back : Lexer → Lexer
take_back s = elim s.out [
  | [] ↦ s
  | t ∷ ts ↦ if is_newline t.kind then record s { out = ts } else s
]

unfoldable pub begin_line : ℕ → Bool → Lexer → Lexer
begin_line width tabs s =
    let s₁ =
      (if tabs
        then report (record { line = s.line; col = 1 })
            (bytes "indentacion con tabulador: usa espacios") s
        else s) in
    let s₂ = advance_over width s₁ in
    if peek 0 s₂ == b'.' && not (is_digit (peek 1 s₂))
    then record (take_back s₂) { at_line_start = false }
    else record (set_width width s₂) { at_line_start = false }

-- Lines without tokens are skipped; `none` is out of rounds.
unfoldable pub handle_line_start : ℕ → Lexer → Option Lexer
handle_line_start zero s = none
handle_line_start (suc rounds) s =
    let (width, tabs, more) = blanks s.rest in
    elim more [
      | [] ↦ some (record s { rest = []; col = s.col + width })
      | c ∷ r ↦ elim (c == b'\n' || c == b'\r' || c == b'#') [
        | true ↦ handle_line_start rounds (skip_line (advance_over width s))
        | false ↦ some (begin_line width tabs s)
      ]
    ]
