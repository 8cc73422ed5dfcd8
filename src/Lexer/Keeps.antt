-- ===== src/Lexer/Keeps.antt =====
-- The text functions of src/odio/lexer.cpp, and the part of the state that they do not touch.
use osodio.Prelude.{
  Bytes, ℕ, zero, suc, ◌≤◌, ◌≡◌, refl, ◌∙◌, Bool, true, false, List, [], ◌∷◌, Option, none, some,
  arith, length, Bool-cases, Option-cases, inl, inr, ◌==◌, ◌&&◌,
}
use osodio.Prelude.{either, either_way}
use osodio.Vm.Code.{SourceLoc}
use osodio.Lexer.Token.{Tok, Token, indent, dedent, string}
use osodio.Lexer.State.{Lexer, peek, advance, push, report, eof}
use osodio.Lexer.Text.{
  read_while, skip_line_comment, string_body, unknown_escape, unescape, raw_text, lex_string_multi,
  lex_string, escape_de, unclosed, quotes,
}

-- The blocks that are open behind tokens, the last one first; none if more were closed than opened.
abbrev pub after_token : Tok → Option ℕ → Option ℕ
after_token indent (some n) = some (suc n)
after_token dedent (some (suc n)) = some n
after_token dedent (some zero) = none
after_token k none = none
after_token k (some n) = some n

unfoldable pub open_blocks : List Token → Option ℕ
open_blocks [] = some 0
open_blocks (t ∷ ts) = after_token t.kind (open_blocks ts)

abbrev pub is_block : Tok → Bool
is_block indent = true
is_block dedent = true
is_block _ = false

pub record Keeps (s s' : Lexer) : Type 0 where
  pub widths : s'.indents ≡ s.indents
  pub blocks : open_blocks s'.out ≡ open_blocks s.out
  pub reports : length s.diags ≤ length s'.diags
  pub text : length s'.rest ≤ length s.rest

pub Keeps-refl : (s : Lexer) → Keeps s s
Keeps-refl s = record { widths = refl; blocks = refl; reports = omega arith; text = omega arith }

pub Keeps-trans : {s t u : Lexer} → Keeps s t → Keeps t u → Keeps s u
Keeps-trans h k = record {
  widths = k.widths ∙ h.widths;
  blocks = k.blocks ∙ h.blocks;
  reports = omega (arith, h.reports, k.reports);
  text = omega (arith, h.text, k.text);
}

pub advance-Keeps : (s : Lexer) → Keeps s (advance s)
unfolding advance
advance-Keeps s = record {
  widths = ground arith;
  blocks = ground arith;
  reports = ground arith;
  text = ground arith;
}

-- A character that is there is taken.
pub length-advance : (s : Lexer) → eof s ≡ false → suc (length (advance s).rest) ≡ length s.rest
unfolding advance
length-advance s h = ground arith

pub after_token-plain : (k : Tok) (o : Option ℕ) → is_block k ≡ false → after_token k o ≡ o
after_token-plain k o h = ground arith

pub push-Keeps :
    (k : Tok) (loc : SourceLoc) (text : Bytes) (s : Lexer)
    → is_block k ≡ false
    → Keeps s (push k loc text s)
unfolding open_blocks
push-Keeps k loc text s h = record {
  widths = refl;
  blocks = after_token-plain k (open_blocks s.out) h;
  reports = omega arith;
  text = omega arith;
}

pub report-Keeps : (loc : SourceLoc) (m : Bytes) (s : Lexer) → Keeps s (report loc m s)
report-Keeps loc m s = record {
  widths = refl;
  blocks = refl;
  reports = omega arith;
  text = omega arith;
}

pub read_while-Keeps : (p : ℕ → Bool) (r : Bytes) (s : Lexer) → Keeps s (read_while p r s).1
unfolding read_while
read_while-Keeps p [] s = Keeps-refl s
read_while-Keeps p (c ∷ r) s = elim (Bool-cases (p c)) [
  | inl more ↦
      rw (read_while, more) (Keeps-trans (advance-Keeps s) (read_while-Keeps p r (advance s)))
  | inr stop ↦ rw (read_while, stop) (Keeps-refl s)
]

-- From a first character that is read, one character at least.
pub read_while-shorter :
    (p : ℕ → Bool) (c : ℕ) (r : Bytes) (s : Lexer)
    → p c ≡ true
    → Keeps (advance s) (read_while p (c ∷ r) s).1
unfolding read_while
read_while-shorter p c r s more = rw (read_while, more) (read_while-Keeps p r (advance s))

pub skip_line_comment-Keeps : (s : Lexer) → Keeps s (skip_line_comment s)
unfolding skip_line_comment
skip_line_comment-Keeps s = read_while-Keeps _ s.rest s

unknown_escape-Keeps : (e : ℕ) (loc : SourceLoc) (s : Lexer) → Keeps s (unknown_escape e loc s)
unknown_escape-Keeps e loc s = elim (Option-cases (escape_de e)) [
  | inl unknown ↦ rw (unknown_escape, unknown) (report-Keeps loc _ s)
  | inr (d, known) ↦ rw (unknown_escape, known) (Keeps-refl s)
]

two-Keeps : (s : Lexer) → Keeps s (advance (advance s))
two-Keeps s = Keeps-trans (advance-Keeps s) (advance-Keeps (advance s))

three-Keeps : (s : Lexer) → Keeps s (advance (advance (advance s)))
three-Keeps s = Keeps-trans (two-Keeps s) (advance-Keeps (advance (advance s)))

module _ (loc : SourceLoc) where
  abbrev Kept : Lexer → Bytes × Lexer → Type 0
  Kept s r = Keeps s r.1

  advance-unclosed-Keeps : (s : Lexer) → Keeps s (unclosed loc (advance s))
  advance-unclosed-Keeps s = Keeps-trans (advance-Keeps s) (report-Keeps loc _ (advance s))

  string_body-Keeps : (r : Bytes) (s : Lexer) → Keeps s (string_body loc r s).1
  unfolding string_body
  string_body-Keeps [] s = report-Keeps loc _ s
  string_body-Keeps (c ∷ []) s = either (Kept s) (c == b'\n') (report-Keeps loc _ s) (
      either (Kept s) (c == b'"') (advance-Keeps s)
        (either (Kept s) (c == b'\\') (advance-unclosed-Keeps s) (advance-unclosed-Keeps s)))
  string_body-Keeps (c ∷ e ∷ r) s = either (Kept s) (c == b'\n') (report-Keeps loc _ s) (
      either (Kept s) (c == b'"') (advance-Keeps s) (
        either_way (Kept s) (c == b'\\')
          (Keeps-trans (Keeps-trans (two-Keeps s) (unknown_escape-Keeps e _ _))
            (string_body-Keeps r _))
          (Keeps-trans (advance-Keeps s) (string_body-Keeps (e ∷ r) (advance s)))))

  unescape-Keeps : (r : Bytes) (s : Lexer) → Keeps s (unescape loc r s).1
  unfolding unescape
  unescape-Keeps [] s = Keeps-refl s
  unescape-Keeps (c ∷ []) s = Keeps-refl s
  unescape-Keeps (c ∷ e ∷ r) s =
      either_way (Kept s) (c == b'\\')
        (Keeps-trans (unknown_escape-Keeps e loc s) (unescape-Keeps r _)) (unescape-Keeps (e ∷ r) s)

  raw_text-Keeps : (r : Bytes) (s : Lexer) → Keeps s (raw_text r s).2
  unfolding raw_text
  raw_text-Keeps [] s = Keeps-refl s
  raw_text-Keeps (c ∷ []) s = advance-Keeps s
  raw_text-Keeps (c ∷ e ∷ r) s =
      let Raw : Bytes × Bool × Lexer → Type 0 = λ t. Keeps s t.2 in
      either Raw (quotes (c ∷ e ∷ r)) (three-Keeps s) (
        either_way Raw (c == b'\\') (Keeps-trans (two-Keeps s) (raw_text-Keeps r _))
          (Keeps-trans (advance-Keeps s) (raw_text-Keeps (e ∷ r) _)))

  -- A string takes its opening quote at least.
  pub lex_string_multi-Keeps : (s : Lexer) → Keeps (advance s) (lex_string_multi loc s)
  unfolding lex_string_multi
  lex_string_multi-Keeps s =
      let opened = advance (advance (advance s)) in
      Keeps-trans (two-Keeps (advance s)) (
        Keeps-trans (raw_text-Keeps opened.rest opened) (
          Keeps-trans
            (either (Keeps _) (raw_text opened.rest opened).1 (Keeps-refl _) (report-Keeps loc _ _))
            (Keeps-trans (unescape-Keeps _ _) (push-Keeps string loc _ _ refl))))

  pub lex_string-Keeps : (s : Lexer) → Keeps (advance s) (lex_string loc s)
  unfolding lex_string
  lex_string-Keeps s =
      either (Keeps (advance s)) (peek 1 s == b'"' && peek 2 s == b'"') (lex_string_multi-Keeps s) (
        Keeps-trans (string_body-Keeps (advance s).rest (advance s))
          (push-Keeps string loc _ _ refl))
