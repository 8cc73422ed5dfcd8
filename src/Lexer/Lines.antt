-- ===== src/Lexer/Lines.antt =====
-- The lines without tokens, and the start of one with tokens, in `handle_line_start` of
-- src/odio/lexer.cpp.
use mathlib.Core.Bool.{false≢true}
use osodio.Prelude.{
  Bytes, ℕ, zero, suc, ◌+◌, ◌≤◌, ◌<◌, ◌⊎◌, ◌≡◌, refl, ap, ◌∙◌, Bool, true, false, not, [], ◌∷◌,
  some, arith, length, Bool-cases, inl, inr, if◌then◌else◌, ◌==◌, ◌||◌, get_or,
}
use osodio.Lexer.State.{Lexer, peek, advance}
use osodio.Lexer.Text.{skip_line_comment, read_while}
use osodio.Lexer.Scan.{
  blanks, advance_over, skip_line, set_width, take_back, begin_line, handle_line_start,
}
use osodio.Prelude.{either}
use osodio.Lexer.Keeps.{
  Keeps, Keeps-refl, Keeps-trans, advance-Keeps, length-advance, report-Keeps, read_while-shorter,
}
use osodio.Lexer.Blocks.{
  IsNested, Keeps-IsNested, advance_over-Keeps, take_back-Keeps, set_width-Adjusts,
}

-- What a round leaves, from a text of `n` characters.
pub record Leaves (n : ℕ) (s : Lexer) : Type 0 where
  pub nested : IsNested s
  pub text : length s.rest ≤ n

pub Keeps-Leaves : {s s' : Lexer} → Keeps s s' → IsNested s → Leaves (length s.rest) s'
Keeps-Leaves k h = record { nested = Keeps-IsNested k h; text = k.text }

continued-Leaves :
    (n : ℕ) (s : Lexer) → Leaves n s → Leaves n (record (take_back s) { at_line_start = false })
continued-Leaves n s h =
    let k = take_back-Keeps s.out s in
    record { nested = Keeps-IsNested k h.nested; text = omega (arith, h.text, k.text) }

indented-Leaves :
    (n width : ℕ) (s : Lexer)
    → Leaves n s
    → Leaves n (record (set_width width s) { at_line_start = false })
indented-Leaves n width s h =
    let a = set_width-Adjusts width s h.nested in
    record { nested = a.nested; text = omega (arith, h.text, ap length a.text) }

begin_line-Leaves :
    (width : ℕ) (tabs : Bool) (s : Lexer)
    → IsNested s
    → Leaves (length s.rest) (begin_line width tabs s)
unfolding begin_line
begin_line-Leaves width tabs s h =
    let k =
      Keeps-trans (either (Keeps s) tabs (report-Keeps _ _ s) (Keeps-refl s))
        (advance_over-Keeps width _) in
    let moved = Keeps-Leaves k h in
    either (Leaves (length s.rest)) _ (continued-Leaves _ _ moved) (indented-Leaves _ width _ moved)

-- A line without tokens ends in a character, which is taken.
abbrev line_end : ℕ → Bool
line_end c = c == b'\n' || c == b'\r' || c == b'#'

pub first_of_comment :
    (r : Bytes) (s : Lexer)
    → (get_or r 0 0 == b'#') ≡ true
    → Keeps (advance s) (read_while (λ c. not (c == b'\n')) r s).1
first_of_comment [] s h = absurd (false≢true h)
first_of_comment (c ∷ r) s h = read_while-shorter _ c r s (ground arith)

optional-Keeps : (b : Bool) (s : Lexer) → Keeps s (if b then advance s else s)
optional-Keeps b s = either (Keeps s) b (advance-Keeps s) (Keeps-refl s)

skip_line-Keeps : (s : Lexer) → line_end (peek 0 s) ≡ true → Keeps (advance s) (skip_line s)
unfolding skip_line skip_line_comment
skip_line-Keeps s h = elim (Bool-cases (peek 0 s == b'#')) [
  | inl hash ↦
      rw (skip_line, hash)
        (Keeps-trans (first_of_comment s.rest s hash)
          (Keeps-trans (optional-Keeps _ _) (optional-Keeps _ _)))
  | inr no_hash ↦ elim (Bool-cases (peek 0 s == b'\r')) [
    | inl return ↦ rw (skip_line, no_hash, return) (optional-Keeps _ _)
    | inr no_return ↦
        let break : (peek 0 s == b'\n') ≡ true = ground arith in
        rw (skip_line, no_hash, no_return, break) (Keeps-refl (advance s))
  ]
]

pub advance-rest : (c : ℕ) (r : Bytes) (s : Lexer) → s.rest ≡ c ∷ r → (advance s).rest ≡ r
unfolding advance
advance-rest c r s e = ground arith

-- The blanks are what `advance_over` takes.
advance_over-blanks :
    (r : Bytes) (s : Lexer) → s.rest ≡ r → (advance_over (blanks r).0 s).rest ≡ (blanks r).2
unfolding advance_over blanks
advance_over-blanks [] s e = e
advance_over-blanks (c ∷ r) s e =
    let later = advance_over-blanks r (advance s) (advance-rest c r s e) in
    elim (Bool-cases (c == b' ')) [
      | inl space ↦ rw (blanks, space) later
      | inr other ↦ elim (Bool-cases (c == b'\t')) [
        | inl tab ↦ rw (blanks, other, tab) later
        | inr word ↦ rw (blanks, other, word) e
      ]
    ]

list-cases : (l : Bytes) → (l ≡ []) ⊎ ((c : ℕ) × (r : Bytes) × (l ≡ c ∷ r))
list-cases [] = inl refl
list-cases (c ∷ r) = inr (c, r, refl)

-- Enough rounds: one for each line without tokens and one more.
pub handle_line_start-Leaves :
    (rounds : ℕ) (s : Lexer)
    → length s.rest < rounds
    → IsNested s
    → (s' : Lexer) × (handle_line_start rounds s ≡ some s') × Leaves (length s.rest) s'
unfolding handle_line_start
handle_line_start-Leaves zero s lt h = absurd (omega arith)
handle_line_start-Leaves (suc rounds) s lt h =
    let width : ℕ = (blanks s.rest).0 in
    let t : Lexer = advance_over width s in
    let there : t.rest ≡ (blanks s.rest).2 = advance_over-blanks s.rest s refl in
    let over : Keeps s t = advance_over-Keeps width s in
    elim (list-cases (blanks s.rest).2) [
      | inl none_left ↦
          rw (handle_line_start, none_left)
            (
              record s { rest = []; col = s.col + width },
              refl,
              record { nested = h; text = omega arith },
            )
      | inr (c, r, more) ↦
          let first : t.rest ≡ c ∷ r = there ∙ more in
          elim (Bool-cases (line_end c)) [
            | inl ends ↦
                let taken : Keeps (advance t) (skip_line t) = skip_line-Keeps t (rw first ends) in
                let shorter : suc (length (advance t).rest) ≡ length t.rest =
                  length-advance t (rw first refl) in
                let later =
                  handle_line_start-Leaves rounds (skip_line t)
                    (omega (arith, lt, taken.text, over.text, shorter))
                    (Keeps-IsNested (Keeps-trans over (Keeps-trans (advance-Keeps t) taken)) h) in
                rw (handle_line_start, more, ends)
                  (
                    later.0,
                    later.1,
                    record {
                      nested = later.2.nested;
                      text = omega (arith, later.2.text, taken.text, over.text, shorter);
                    },
                  )
            | inr begins ↦
                rw (handle_line_start, more, begins)
                  (begin_line width (blanks s.rest).1 s, refl, begin_line-Leaves width _ s h)
          ]
    ]
