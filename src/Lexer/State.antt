-- ===== src/Lexer/State.antt =====
-- The state of a `Lexer` of include/odio/lexer.hpp, with the text that is left in place of the
-- position.
use osodio.Prelude.{Bytes, ℕ, suc, Bool, true, false, List, [], ◌∷◌, ◌==◌, if◌then◌else◌, get_or}
use osodio.Vm.Code.{SourceLoc}
use osodio.Lexer.Token.{Tok, Token, is_newline, is_layout}

-- `Diagnostic` of include/odio/diagnostic.hpp
pub record Diagnostic : Type 0 where
  pub loc : SourceLoc
  pub message : Bytes

-- The open widths, the tokens and the diagnostics have their last one first.
pub record Lexer : Type 0 where
  pub rest : Bytes
  pub line : ℕ
  pub col : ℕ
  pub indents : List ℕ
  pub bracket_depth : ℕ
  pub at_line_start : Bool
  pub out : List Token
  pub diags : List Diagnostic

abbrev pub eof : Lexer → Bool
eof s = elim s.rest [ [] ↦ true | c ∷ r ↦ false ]

-- Past the end there is a zero.
abbrev pub peek : ℕ → Lexer → ℕ
peek ahead s = get_or s.rest ahead 0

unfoldable pub advance : Lexer → Lexer
advance s = elim s.rest [
  | [] ↦ s
  | c ∷ r ↦
      if c == b'\n'
      then record s { rest = r; line = suc s.line; col = 1 }
      else record s { rest = r; col = suc s.col }
]

abbrev pub here : Lexer → SourceLoc
here s = record { line = s.line; col = s.col }

abbrev pub push : Tok → SourceLoc → Bytes → Lexer → Lexer
push kind loc text s = record s { out = record { kind = kind; text = text; loc = loc } ∷ s.out }

abbrev pub report : SourceLoc → Bytes → Lexer → Lexer
report loc message s = record s { diags = record { loc = loc; message = message } ∷ s.diags }

-- Whether the last token is a `Newline`, and whether there is none but those of the layout.
abbrev pub after_newline : List Token → Bool
after_newline [] = false
after_newline (t ∷ ts) = is_newline t.kind

abbrev pub after_layout : List Token → Bool
after_layout [] = true
after_layout (t ∷ ts) = is_layout t.kind
