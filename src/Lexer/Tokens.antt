-- ===== src/Lexer/Tokens.antt =====
-- A single token, in `lex_token` of src/odio/lexer.cpp.
use mathlib.Core.Bool.{false≢true, and-eq-true_iff}
use osodio.StringMap.{lookup}
use osodio.Prelude.{
  Bytes, ℕ, ◌≡◌, refl, sym, ◌∙◌, Bool, true, false, not, List, [], ◌∷◌, some, arith, Bool-cases,
  Option-cases, inl, inr, ◌==◌, ◌&&◌, get_or, bytes_eq,
}
use osodio.Vm.Code.{SourceLoc}
use osodio.Lexer.Token.{Tok, int, float, keywords, keyword_or_ident}
use osodio.Lexer.State.{Lexer, peek, advance, here, push}
use osodio.Lexer.Text.{is_digit, is_ident_start, is_ident_char, read_while, lex_number, lex_ident}
use osodio.Lexer.Scan.{
  Sign, opens, closes, plain, wide, lone_bang, stray, sign, lex_sign, lex_token,
}
use osodio.Prelude.{either}
use osodio.Lexer.Keeps.{
  Keeps, Keeps-trans, advance-Keeps, push-Keeps, report-Keeps, read_while-Keeps, read_while-shorter,
  lex_string-Keeps, is_block,
}

plain_words : List (Bytes × Tok) → Bool
plain_words [] = true
plain_words ((w, k) ∷ ws) = not (is_block k) && plain_words ws

false_of_not : (b : Bool) → not b ≡ true → b ≡ false
false_of_not false h = refl
false_of_not true h = cc

lookup-plain :
    (s : Bytes) (ws : List (Bytes × Tok)) (k : Tok)
    → plain_words ws ≡ true
    → lookup s ws ≡ some k
    → is_block k ≡ false
unfolding lookup plain_words
lookup-plain s [] k h e = cc
lookup-plain s ((w, j) ∷ ws) k h e =
    let both : (not (is_block j) ≡ true) × (plain_words ws ≡ true) = (and-eq-true_iff _ _).0 h in
    elim (Bool-cases (bytes_eq w s)) [
      | inl here_it_is ↦
          let found : some j ≡ some k = rw here_it_is at e in
          let same : j ≡ k = cc in rw (← same) (false_of_not _ both.0)
      | inr elsewhere ↦ lookup-plain s ws k both.1 (rw elsewhere at e)
    ]

-- A reserved word is no token of a block.
keyword_or_ident-plain : (s : Bytes) → is_block (keyword_or_ident s) ≡ false
unfolding keyword_or_ident plain_words
keyword_or_ident-plain s = elim (Option-cases (lookup s keywords)) [
  | inl free ↦ rw (keyword_or_ident, free) refl
  | inr (k, reserved) ↦ rw (keyword_or_ident, reserved) (lookup-plain s keywords k refl reserved)
]

-- A first character that is read.
first_read :
    (p : ℕ → Bool) (r : Bytes) (s : Lexer)
    → p 0 ≡ false
    → p (get_or r 0 0) ≡ true
    → Keeps (advance s) (read_while p r s).1
first_read p [] s h k = absurd (false≢true (sym h ∙ k))
first_read p (c ∷ r) s h k = read_while-shorter p c r s k

lex_number-Keeps :
    (loc : SourceLoc) (s : Lexer)
    → is_digit (peek 0 s) ≡ true
    → Keeps (advance s) (lex_number loc s)
unfolding lex_number
lex_number-Keeps loc s digit =
    let whole = first_read is_digit s.rest s refl digit in
    either (Keeps (advance s)) _
      (Keeps-trans whole (
        Keeps-trans (advance-Keeps _)
          (Keeps-trans (read_while-Keeps is_digit _ _) (push-Keeps float loc _ _ refl))))
      (Keeps-trans whole (push-Keeps int loc _ _ refl))

lex_ident-Keeps :
    (loc : SourceLoc) (s : Lexer)
    → is_ident_start (peek 0 s) ≡ true
    → Keeps (advance s) (lex_ident loc s)
unfolding lex_ident
lex_ident-Keeps loc s letter =
    Keeps-trans (first_read is_ident_char s.rest s refl (ground arith))
      (push-Keeps _ loc _ _ (keyword_or_ident-plain _))

-- The token of a sign is no token of a block.
data IsPlain : Sign → Type 0 where
  opens_plain : {t : Tok} → is_block t ≡ false → IsPlain (opens t)
  closes_plain : {t : Tok} → is_block t ≡ false → IsPlain (closes t)
  plain_plain : {t : Tok} → is_block t ≡ false → IsPlain (plain t)
  wide_plain : {t : Tok} → is_block t ≡ false → IsPlain (wide t)
  bang_plain : IsPlain lone_bang
  stray_plain : IsPlain stray

sign-IsPlain : (c d : ℕ) → IsPlain (sign c d)
unfolding sign
sign-IsPlain c d = either IsPlain (c == b'(') (opens_plain refl) (
    either IsPlain (c == b')') (closes_plain refl) (
      either IsPlain (c == b'[') (opens_plain refl) (
        either IsPlain (c == b']') (closes_plain refl) (
          either IsPlain (c == b'{') (opens_plain refl) (
            either IsPlain (c == b'}') (closes_plain refl) (
              either IsPlain (c == b',') (plain_plain refl) (
                either IsPlain (c == b':') (plain_plain refl) (
                  either IsPlain (c == b'.') (plain_plain refl) (
                    either IsPlain (c == b'?') (plain_plain refl) (
                      either IsPlain (c == b'+')
                        (either IsPlain (d == b'+') (wide_plain refl)
                          (either IsPlain (d == b'=') (wide_plain refl) (plain_plain refl)))
                        (either IsPlain (c == b'*')
                          (either IsPlain (d == b'=') (wide_plain refl) (plain_plain refl))
                          (either IsPlain (c == b'/')
                            (either IsPlain (d == b'=') (wide_plain refl) (plain_plain refl))
                            (either IsPlain (c == b'%')
                              (either IsPlain (d == b'=') (wide_plain refl) (plain_plain refl))
                              (either IsPlain (c == b'-')
                                (either IsPlain (d == b'>') (wide_plain refl) (
                                  either IsPlain (d == b'-') (wide_plain refl) (
                                    either IsPlain (d == b'=') (wide_plain refl)
                                      (plain_plain refl))))
                                (either IsPlain (c == b'=')
                                  (either IsPlain (d == b'=') (wide_plain refl) (plain_plain refl))
                                  (either IsPlain (c == b'!')
                                    (either IsPlain (d == b'=') (wide_plain refl) bang_plain)
                                    (either IsPlain (c == b'<')
                                      (either IsPlain (d == b'=') (wide_plain refl)
                                        (plain_plain refl))
                                      (either IsPlain (c == b'>')
                                        (either IsPlain (d == b'=') (wide_plain refl)
                                          (plain_plain refl))
                                        stray_plain))))))))))))))))))

bracket-Keeps :
    (k : Tok) (loc : SourceLoc) (n : ℕ) (s : Lexer)
    → is_block k ≡ false
    → Keeps s (push k loc [] (record s { bracket_depth = n }))
bracket-Keeps k loc n s h = record {
  widths = refl;
  blocks = (push-Keeps k loc [] s h).blocks;
  reports = omega arith;
  text = omega arith;
}

lex_sign-Keeps :
    (c : ℕ) (loc : SourceLoc) (g : Sign) (s : Lexer) → IsPlain g → Keeps s (lex_sign c loc g s)
unfolding lex_sign
lex_sign-Keeps c loc (opens t) s (opens_plain h) = bracket-Keeps t loc _ s h
lex_sign-Keeps c loc (closes t) s (closes_plain h) = bracket-Keeps t loc _ s h
lex_sign-Keeps c loc (plain t) s (plain_plain h) = push-Keeps t loc [] s h
lex_sign-Keeps c loc (wide t) s (wide_plain h) =
    Keeps-trans (advance-Keeps s) (push-Keeps t loc [] (advance s) h)
lex_sign-Keeps c loc lone_bang s h = report-Keeps loc _ s
lex_sign-Keeps c loc stray s h = report-Keeps loc _ s

-- A token takes a character at least.
pub lex_token-Keeps : (s : Lexer) → Keeps (advance s) (lex_token s)
unfolding lex_token
lex_token-Keeps s = elim (Bool-cases (is_digit (peek 0 s))) [
  | inl digit ↦ rw (lex_token, digit) (lex_number-Keeps (here s) s digit)
  | inr other ↦ elim (Bool-cases (is_ident_start (peek 0 s))) [
    | inl letter ↦
        rw (lex_token, other, letter)
          (either (Keeps (advance s)) _ (lex_string-Keeps (here s) s)
            (lex_ident-Keeps (here s) s letter))
    | inr sign_there ↦
        rw (lex_token, other, sign_there)
          (either (Keeps (advance s)) _ (lex_string-Keeps (here s) s)
            (lex_sign-Keeps _ _ _ _ (sign-IsPlain _ _)))
  ]
]
