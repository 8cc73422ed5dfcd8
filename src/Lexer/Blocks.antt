-- ===== src/Lexer/Blocks.antt =====
-- The open widths of src/odio/lexer.cpp, `indents_`, and the blocks of the tokens behind them.
use osodio.Prelude.{
  bytes, ℕ, zero, suc, ◌-◌, ◌≤◌, ◌≡◌, refl, ap, sym, ◌∙◌, true, false, List, [], ◌∷◌, some, arith,
  length, Bool-cases, inl, inr, ltb,
}
use osodio.Vm.Code.{SourceLoc}
use osodio.Lexer.Token.{Tok, Token, indent, dedent, is_newline}
use osodio.Lexer.State.{Lexer, advance, here, push, report}
use osodio.Lexer.Scan.{advance_over, close_wider, innermost, set_width, take_back}
use osodio.Prelude.{either}
use osodio.Lexer.Keeps.{
  Keeps, Keeps-refl, Keeps-trans, advance-Keeps, open_blocks, after_token, after_token-plain,
  is_block,
}

-- The widths end in the one of the file.
abbrev pub Bottomed : List ℕ → Type 0
Bottomed [] = ⊥
Bottomed (w ∷ []) = w ≡ 0
Bottomed (w ∷ v ∷ ws) = Bottomed (v ∷ ws)

-- While nothing is wrong, each width but the last has its block.
abbrev pub Nested : List ℕ → List Token → ℕ → Type 0
Nested ws out reports = Bottomed ws × (reports ≡ 0 → open_blocks out ≡ some (length ws - 1))

abbrev pub IsNested : Lexer → Type 0
IsNested s = Nested s.indents s.out (length s.diags)

pub Keeps-IsNested : {s s' : Lexer} → Keeps s s' → IsNested s → IsNested s'
Keeps-IsNested k (bottom, inside) = (
  rw k.widths bottom,
  λ fine.
      k.blocks
      ∙ (inside (omega (arith, k.reports)) ∙ ap (λ ws. some (length ws - 1)) (sym k.widths)),
)

pub advance_over-Keeps : (n : ℕ) (s : Lexer) → Keeps s (advance_over n s)
unfolding advance_over
advance_over-Keeps zero s = Keeps-refl s
advance_over-Keeps (suc n) s = Keeps-trans (advance-Keeps s) (advance_over-Keeps n (advance s))

plain_of_newline : (k : Tok) → is_newline k ≡ true → is_block k ≡ false
plain_of_newline k h = ground arith

pub take_back-Keeps :
    (out : List Token) (s : Lexer)
    → Keeps (record s { out = out }) (take_back (record s { out = out }))
unfolding take_back open_blocks
take_back-Keeps [] s = Keeps-refl _
take_back-Keeps (t ∷ ts) s = elim (Bool-cases (is_newline t.kind)) [
  | inl taken ↦
      rw (take_back, taken)
        record {
          widths = refl;
          blocks = sym (after_token-plain t.kind (open_blocks ts) (plain_of_newline t.kind taken));
          reports = omega arith;
          text = omega arith;
        }
  | inr kept ↦ rw (take_back, kept) (Keeps-refl _)
]

-- What the width of a line changes: no text, and no report is taken away.
pub record Adjusts (s s' : Lexer) : Type 0 where
  pub nested : IsNested s'
  pub reports : length s.diags ≤ length s'.diags
  pub text : s'.rest ≡ s.rest

opened-Nested :
    (width reports : ℕ) (loc : SourceLoc) (ws : List ℕ) (out : List Token)
    → Nested ws out reports
    → Nested (width ∷ ws) (record { kind = indent; text = []; loc = loc } ∷ out) reports
unfolding open_blocks
opened-Nested width reports loc [] out (bottom, inside) = absurd bottom
opened-Nested width reports loc (w ∷ ws) out (bottom, inside) =
    (bottom, λ fine. ap (after_token indent) (inside fine) ∙ ap some (omega arith))

-- A width that is not the last is closed with its block.
pub closed-Nested :
    (w v reports : ℕ) (loc : SourceLoc) (ws : List ℕ) (out : List Token)
    → Nested (w ∷ v ∷ ws) out reports
    → Nested (v ∷ ws) (record { kind = dedent; text = []; loc = loc } ∷ out) reports
unfolding open_blocks
closed-Nested w v reports loc ws out (bottom, inside) =
    let more : suc (suc (length ws)) - 1 ≡ suc (length ws) = omega arith in
    let less : suc (length ws) - 1 ≡ length ws = omega arith in
    (bottom, λ fine. ap (after_token dedent) (inside fine ∙ ap some more) ∙ ap some (sym less))

close_wider-Adjusts :
    (width : ℕ) (loc : SourceLoc) (ws : List ℕ) (s : Lexer)
    → Nested ws s.out (length s.diags)
    → Adjusts s (close_wider width loc ws (record s { indents = ws }))
unfolding close_wider
close_wider-Adjusts width loc [] s (bottom, inside) = absurd bottom
close_wider-Adjusts width loc (w ∷ []) s (bottom, inside) = elim (Bool-cases (ltb width w)) [
  | inl wider ↦ absurd (ground arith)
  | inr fits ↦
      rw (close_wider, fits)
        record { nested = (bottom, inside); reports = omega arith; text = refl }
]
close_wider-Adjusts width loc (w ∷ v ∷ ws) s h = elim (Bool-cases (ltb width w)) [
  | inl wider ↦
      let deeper =
        close_wider-Adjusts width loc (v ∷ ws) (push dedent loc [] s)
          (closed-Nested w v (length s.diags) loc ws s.out h) in
      rw (close_wider, wider)
        record { nested = deeper.nested; reports = deeper.reports; text = deeper.text }
  | inr fits ↦ rw (close_wider, fits) record { nested = h; reports = omega arith; text = refl }
]

deeper : (w : ℕ) (ws : List ℕ) → Bottomed ws → Bottomed (w ∷ ws)
deeper w [] bottom = absurd bottom
deeper w (v ∷ ws) bottom = bottom

pub set_width-Adjusts : (width : ℕ) (s : Lexer) → IsNested s → Adjusts s (set_width width s)
unfolding set_width
set_width-Adjusts width s h =
    let closed = close_wider-Adjusts width (here s) s.indents s h in
    either (Adjusts s) (ltb (innermost s) width)
      record {
        nested = opened-Nested width (length s.diags) (here s) s.indents s.out h;
        reports = omega arith;
        text = refl;
      }
      (either (Adjusts s) _ closed (misfit width _ closed))
  where
    misfit :
        (width : ℕ) (c : Lexer)
        → Adjusts s c
        → Adjusts s (
            report
              (here s)
              (bytes "la indentacion no coincide con ningun nivel abierto")
              (record c { indents = width ∷ c.indents }))
    misfit width c a = record {
      nested = (deeper width c.indents a.nested.0, λ fine. absurd (omega (arith, fine)));
      reports = omega (arith, a.reports);
      text = a.text;
    }
