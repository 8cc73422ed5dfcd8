-- ===== src/Lexer/Rounds.antt =====
-- The loop of `tokenize` of src/odio/lexer.cpp.
use osodio.Prelude.{
  ℕ, zero, suc, ◌<◌, ◌⊎◌, ◌≡◌, refl, true, false, [], some, arith, length, Bool-cases, inl, inr,
  if◌then◌else◌, ◌==◌, ◌&&◌, ◌||◌,
}
use osodio.Vm.Code.{SourceLoc}
use osodio.Lexer.Token.{newline}
use osodio.Lexer.State.{Lexer, peek, advance, here, push, eof, after_layout}
use osodio.Lexer.Text.{skip_line_comment}
use osodio.Lexer.Scan.{lex_token}
use osodio.Lexer.Tokenize.{end_line, scan, line_start, scan_all}
use osodio.Prelude.{either}
use osodio.Lexer.Keeps.{Keeps, Keeps-refl, Keeps-trans, advance-Keeps, length-advance, push-Keeps}
use osodio.Lexer.Tokens.{lex_token-Keeps}
use osodio.Lexer.Blocks.{IsNested, Keeps-IsNested}
use osodio.Lexer.Lines.{Leaves, Keeps-Leaves, first_of_comment, handle_line_start-Leaves}

end_line-Keeps : (eol : SourceLoc) (s : Lexer) → Keeps s (end_line eol s)
unfolding end_line
end_line-Keeps eol s =
    either (Keeps s) _
      (at_start (if after_layout s.out then s else push newline eol [] s)
        (either (Keeps s) _ (Keeps-refl s) (push-Keeps newline eol [] s refl)))
      (Keeps-refl s)
  where
    at_start : (s' : Lexer) → Keeps s s' → Keeps s (record s' { at_line_start = true })
    at_start s' k = record {
      widths = k.widths;
      blocks = k.blocks;
      reports = k.reports;
      text = k.text;
    }

-- A round takes a character at least.
scan-Keeps : (s : Lexer) → Keeps (advance s) (scan s)
unfolding scan skip_line_comment
scan-Keeps s =
    either (Keeps (advance s)) (peek 0 s == b' ' || peek 0 s == b'\t' || peek 0 s == b'\r')
      (Keeps-refl (advance s)) (comment_or_token (Bool-cases (peek 0 s == b'#')))
  where
    comment_or_token :
        ((peek 0 s == b'#') ≡ true) ⊎ ((peek 0 s == b'#') ≡ false)
        → Keeps (advance s) (
            if peek 0 s == b'#'
            then skip_line_comment s
            else if peek 0 s == b'\n'
            then end_line (here s) (advance s)
            else lex_token s)
    comment_or_token (inl hash) = rw hash (first_of_comment s.rest s hash)
    comment_or_token (inr other) =
        rw other
          (either (Keeps (advance s)) _ (end_line-Keeps (here s) (advance s)) (lex_token-Keeps s))

line_start-Leaves :
    (s : Lexer) → IsNested s → (s' : Lexer) × (line_start s ≡ some s') × Leaves (length s.rest) s'
line_start-Leaves s h = elim (Bool-cases (s.at_line_start && s.bracket_depth == 0)) [
  | inl starts ↦ rw starts (handle_line_start-Leaves (suc (length s.rest)) s (omega arith) h)
  | inr goes_on ↦ rw goes_on (s, refl, Keeps-Leaves (Keeps-refl s) h)
]

-- Enough rounds: one for each character and one more.
pub scan_all-Nested :
    (rounds : ℕ) (s : Lexer)
    → length s.rest < rounds
    → IsNested s
    → (s' : Lexer) × (scan_all rounds s ≡ some s') × IsNested s'
unfolding scan_all
scan_all-Nested zero s lt h = absurd (omega arith)
scan_all-Nested (suc rounds) s lt h =
    let (t, starts, left) = line_start-Leaves s h in
    elim (Bool-cases (eof t)) [
      | inl ends ↦ rw (scan_all, starts, ends) (t, refl, left.nested)
      | inr more ↦
          let taken : Keeps (advance t) (scan t) = scan-Keeps t in
          let (u, rest, nested) =
            scan_all-Nested rounds (scan t)
              (omega (arith, lt, taken.text, left.text, length-advance t more))
              (Keeps-IsNested (Keeps-trans (advance-Keeps t) taken) left.nested) in
          rw (scan_all, starts, more) (u, rest, nested)
    ]
