-- ===== src/Lexer/Tokenize.antt =====
-- `tokenize` of src/odio/lexer.cpp.
use mathlib.Core.List.{reverse}
use osodio.Prelude.{
  Bytes, bytes, ℕ, zero, suc, Bool, true, false, not, ◌&&◌, ◌||◌, List, [], ◌∷◌, Option, none, some,
  ◌==◌, if◌then◌else◌, length,
}
use osodio.Vm.Code.{SourceLoc}
use osodio.Lexer.Token.{Token, newline, dedent, end_of_file, is_newline}
use osodio.Lexer.State.{Lexer, Diagnostic, eof, peek, advance, here, push, report, after_layout}
use osodio.Lexer.Text.{skip_line_comment}
use osodio.Lexer.Scan.{lex_token, handle_line_start}

-- A line break outside of brackets: a `Newline` only if the line had tokens.
unfoldable pub end_line : SourceLoc → Lexer → Lexer
end_line eol s =
    if s.bracket_depth == 0
    then record (if after_layout s.out then s else push newline eol [] s) { at_line_start = true }
    else s

-- One round of the loop, at a character.
unfoldable pub scan : Lexer → Lexer
scan s =
    let c = peek 0 s in
    if c == b' ' || c == b'\t' || c == b'\r'
    then advance s
    else if c == b'#'
    then skip_line_comment s
    else if c == b'\n'
    then end_line (here s) (advance s)
    else lex_token s

abbrev pub line_start : Lexer → Option Lexer
line_start s =
    if s.at_line_start && s.bracket_depth == 0
    then handle_line_start (suc (length s.rest)) s
    else some s

unfoldable pub scan_all : ℕ → Lexer → Option Lexer
scan_all zero s = none
scan_all (suc rounds) s = elim (line_start s) [
  | none ↦ none
  | some s' ↦ elim (eof s') [ true ↦ some s' | false ↦ scan_all rounds (scan s') ]
]

-- `while (indents_.size() > 1)`
unfoldable pub close_all : SourceLoc → List ℕ → Lexer → Lexer
close_all loc [] s = s
close_all loc (w ∷ []) s = s
close_all loc (w ∷ v ∷ ws) s =
    close_all loc (v ∷ ws) (push dedent loc [] (record s { indents = v ∷ ws }))

abbrev pub unended : List Token → Bool
unended [] = false
unended (t ∷ ts) = not (is_newline t.kind)

unfoldable pub finish : Lexer → Lexer
finish s =
    let end = here s in
    let s₁ = (if unended s.out then push newline end [] s else s) in
    let s₂ = push end_of_file end [] (close_all end s₁.indents s₁) in
    if s₂.bracket_depth == 0 then s₂ else report end (bytes "parentesis o corchete sin cerrar") s₂

unfoldable pub opened : Bytes → Lexer
opened text = record {
  rest = text;
  line = 1;
  col = 1;
  indents = 0 ∷ [];
  bracket_depth = 0;
  at_line_start = true;
  out = [];
  diags = [];
}

-- The tokens and the diagnostics, in order.
unfoldable pub tokenize : Bytes → Option (List Token × List Diagnostic)
tokenize text = elim (scan_all (suc (length text)) (opened text)) [
  | none ↦ none
  | some s ↦ let s' = finish s in some (reverse s'.out, reverse s'.diags)
]
