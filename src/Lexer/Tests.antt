-- ===== src/Lexer/Tests.antt =====
-- Runs of the lexer of src/odio/lexer.cpp.
use osodio.Prelude.{
  Bytes, bytes, ℕ, List, [], ◌∷◌, ◌++◌, Option, none, some, ◌≡◌, refl, map, bytes_eq,
}
use osodio.StringMap.{lookup}
use osodio.Lexer.Token.{
  Tok, Token, keyword_or_ident, newline, indent, dedent, end_of_file, ident, int, colon, kw_if,
  kw_return, string,
}
use osodio.Vm.Code.{SourceLoc}
use osodio.Lexer.State.{Diagnostic, Lexer, advance}
use osodio.Lexer.Literal.{string_literal, lex_string-string_literal}
use osodio.Lexer.Balance.{IsBalanced, tokenize-returns, tokenize-IsBalanced}
use osodio.Lexer.Margin.{written, sin_margen-written}
use osodio.Lexer.Text
use osodio.Lexer.Scan
use osodio.Lexer.Tokenize
use osodio.Lexer.Tokenize.{tokenize}

abbrev kinds : Bytes → Option (List Tok)
kinds text = elim (tokenize text) [ none ↦ none | some (ts, ds) ↦ some (map (λ t. t.kind) ts) ]

-- `if x:`, a return in its own block, and a comment behind it.
blocks :
    kinds (bytes "if x:" ++ b'\n' ∷ bytes "  return 1" ++ b'\n' ∷ bytes "# end" ++ b'\n' ∷ [])
    ≡ some (
        kw_if ∷ ident ∷ colon ∷ newline ∷ indent ∷ kw_return ∷ int ∷ newline ∷ dedent ∷ end_of_file
        ∷ [])
unfolding tokenize keyword_or_ident advance lookup bytes_eq Text.read_while Text.skip_line_comment
    Text.lex_number Text.lex_ident Text.lex_string Scan.sign Scan.lex_sign Scan.lex_token
    Scan.blanks Scan.advance_over Scan.skip_line Scan.close_wider Scan.set_width Scan.take_back
    Scan.begin_line Scan.handle_line_start Tokenize.end_line Tokenize.scan Tokenize.scan_all
    Tokenize.close_all Tokenize.finish Tokenize.opened
blocks = refl

-- The margin of a text in three quotes.
margin :
    Text.sin_margen (b'\n' ∷ bytes "    a" ++ b'\n' ∷ bytes "      b" ++ b'\n' ∷ bytes "    ")
    ≡ bytes "a" ++ b'\n' ∷ bytes "  b"
unfolding Text.sin_margen Text.without_first_break Text.lines Text.unlines Text.drop_blank_last
    Text.margin_of Text.common_margin
margin = refl

abbrev program : Bytes
program = bytes "a:" ++ b'\n' ∷ bytes " b"

tokenize-returns_example :
    (ts : List Token) × (last : Token) × (ds : List Diagnostic) × (tokenize program
      ≡ some (ts ++ last ∷ [], ds))
    × (last.kind ≡ end_of_file)
tokenize-returns_example = tokenize-returns program

abbrev at_place : ℕ → ℕ → Tok → Bytes → Token
at_place line col kind text = record {
  kind = kind;
  text = text;
  loc = record { line = line; col = col };
}

abbrev tokens : List Token
tokens =
    at_place 1 1 ident (bytes "a")
    ∷ at_place 1 2 colon []
    ∷ at_place 1 3 newline []
    ∷ at_place 2 2 indent []
    ∷ at_place 2 2 ident (bytes "b")
    ∷ at_place 2 3 newline []
    ∷ at_place 2 3 dedent []
    ∷ at_place 2 3 end_of_file []
    ∷ []

program_lem : tokenize program ≡ some (tokens, [])
unfolding tokenize keyword_or_ident advance lookup bytes_eq Text.read_while Text.skip_line_comment
    Text.lex_number Text.lex_ident Text.lex_string Scan.sign Scan.lex_sign Scan.lex_token
    Scan.blanks Scan.advance_over Scan.skip_line Scan.close_wider Scan.set_width Scan.take_back
    Scan.begin_line Scan.handle_line_start Tokenize.end_line Tokenize.scan Tokenize.scan_all
    Tokenize.close_all Tokenize.finish Tokenize.opened
program_lem = refl

tokenize-IsBalanced_example : IsBalanced tokens
tokenize-IsBalanced_example = tokenize-IsBalanced program tokens program_lem

abbrev query : List Bytes
query = bytes "SELECT id" ∷ [] ∷ bytes "  FROM posts" ∷ []

query-margin : Text.common_margin query ≡ some 0
unfolding Text.common_margin Text.margin_of
query-margin = refl

sin_margen-written_example : Text.sin_margen (written 8 4 query) ≡ Text.unlines query
sin_margen-written_example = sin_margen-written 8 4 query refl query-margin

-- A text with a quote and a line break, in its literal, before a bracket.
abbrev said : Bytes
said = b'"' ∷ bytes "hi" ++ b'\n' ∷ []

abbrev place : SourceLoc
place = record { line = 1; col = 1 }

abbrev at_literal : Lexer
at_literal = record (Tokenize.opened []) { rest = b'"' ∷ string_literal said (bytes ")") }

lex_string-string_literal_example :
    ((Text.lex_string place at_literal).out
      ≡ record { kind = string; text = said; loc = place } ∷ at_literal.out)
    × ((Text.lex_string place at_literal).diags ≡ at_literal.diags)
    × ((Text.lex_string place at_literal).rest ≡ bytes ")")
lex_string-string_literal_example =
    lex_string-string_literal place said (bytes ")") at_literal refl (λ e. refl)
