-- ===== src/Lexer/Balance.antt =====
-- The tokens that `tokenize` of src/odio/lexer.cpp gives to the parser, and their `Indent` and `Dedent`.
use mathlib.Core.List.{reverse, reverse_aux, reverse_aux-eq, reverse-reverse}
use osodio.Prelude.{
  Bytes, ℕ, suc, ◌≡◌, refl, ap, sym, ◌∙◌, List, [], ◌∷◌, ◌++◌, Option, none, some, arith, length,
  if◌then◌else◌, ◌==◌,
}
use osodio.Vm.Code.{SourceLoc}
use osodio.Lexer.Token.{Token, newline, end_of_file}
use osodio.Lexer.State.{Lexer, Diagnostic, here, push}
use osodio.Lexer.Tokenize.{scan_all, close_all, finish, opened, tokenize, unended}
use osodio.Prelude.{either}
use osodio.Lexer.Keeps.{Keeps, Keeps-refl, push-Keeps, open_blocks, after_token}
use osodio.Lexer.Blocks.{Nested, IsNested, Keeps-IsNested, closed-Nested}
use osodio.Lexer.Rounds.{scan_all-Nested}

-- The open blocks behind tokens that are read from the first one, from `o` open ones.
unfoldable pub nesting : Option ℕ → List Token → Option ℕ
nesting o [] = o
nesting o (t ∷ ts) = nesting (after_token t.kind o) ts

abbrev pub IsBalanced : List Token → Type 0
IsBalanced ts = nesting (some 0) ts ≡ some 0

nesting-reverse_aux :
    (xs ys : List Token) → nesting (some 0) (reverse_aux xs ys) ≡ nesting (open_blocks xs) ys
unfolding nesting open_blocks
nesting-reverse_aux [] ys = refl
nesting-reverse_aux (x ∷ xs) ys = nesting-reverse_aux xs (x ∷ ys)

nesting-reverse : (xs : List Token) → nesting (some 0) (reverse xs) ≡ open_blocks xs
unfolding nesting
nesting-reverse xs = nesting-reverse_aux xs []

abbrev Closed : Lexer → Type 0
Closed s = length s.diags ≡ 0 → open_blocks s.out ≡ some 0

close_all-diags : (loc : SourceLoc) (ws : List ℕ) (s : Lexer) → (close_all loc ws s).diags ≡ s.diags
unfolding close_all
close_all-diags loc [] s = refl
close_all-diags loc (w ∷ []) s = refl
close_all-diags loc (w ∷ v ∷ ws) s = close_all-diags loc (v ∷ ws) _

close_all-Closed :
    (loc : SourceLoc) (ws : List ℕ) (s : Lexer)
    → Nested ws s.out (length s.diags)
    → length s.diags ≡ 0
    → open_blocks (close_all loc ws s).out ≡ some 0
unfolding close_all
close_all-Closed loc [] s (bottom, inside) fine = absurd bottom
close_all-Closed loc (w ∷ []) s (bottom, inside) fine = inside fine
close_all-Closed loc (w ∷ v ∷ ws) s h fine =
    close_all-Closed loc (v ∷ ws) _ (closed-Nested w v (length s.diags) loc ws s.out h) fine

unended-Keeps : (s : Lexer) → Keeps s (if unended s.out then push newline (here s) [] s else s)
unended-Keeps s = either (Keeps s) _ (push-Keeps newline (here s) [] s refl) (Keeps-refl s)

finish-Closed : (s : Lexer) → IsNested s → Closed (finish s)
unfolding finish open_blocks
finish-Closed s h =
    let s₁ : Lexer = (if unended s.out then push newline (here s) [] s else s) in
    let h₁ : IsNested s₁ = Keeps-IsNested (unended-Keeps s) h in
    let closed = close_all (here s) s₁.indents s₁ in
    let same : closed.diags ≡ s₁.diags = close_all-diags (here s) s₁.indents s₁ in
    either Closed (closed.bracket_depth == 0)
      (λ fine.
        (push-Keeps end_of_file (here s) [] closed refl).blocks
        ∙ close_all-Closed (here s) s₁.indents s₁ h₁ (ap length (sym same) ∙ fine))
      (λ fine. absurd (omega (arith, fine)))

abbrev EndsTheFile : Lexer → Type 0
EndsTheFile s = (ts : List Token) × (last : Token) × (s.out ≡ last ∷ ts) × (last.kind ≡ end_of_file)

finish-EndsTheFile : (s : Lexer) → EndsTheFile (finish s)
unfolding finish
finish-EndsTheFile s = either EndsTheFile _ (_, _, refl, refl) (_, _, refl, refl)

opened-IsNested : (text : Bytes) → IsNested (opened text)
unfolding opened open_blocks
opened-IsNested text = (refl, λ fine. refl)

all_read :
    (text : Bytes)
    → (s : Lexer) × (scan_all (suc (length text)) (opened text) ≡ some s) × IsNested s
unfolding opened
all_read text =
    scan_all-Nested (suc (length text)) (opened text) (omega arith) (opened-IsNested text)

-- Every text is read to its end: `tokenize` returns, and the last token is the end of the file.
pub tokenize-returns :
    (text : Bytes)
    → (ts : List Token) × (last : Token) × (ds : List Diagnostic) × (tokenize text
        ≡ some (ts ++ last ∷ [], ds))
      × (last.kind ≡ end_of_file)
unfolding tokenize
tokenize-returns text =
    let (s, read, nested) = all_read text in
    let (ts, last, out, ends) = finish-EndsTheFile s in
    (
      reverse ts,
      last,
      reverse (finish s).diags,
      rw (tokenize, read, out, reverse_aux-eq ts (last ∷ [])) refl,
      ends,
    )

-- In a text without diagnostics every `Dedent` closes an `Indent` before it, and none is left open.
pub tokenize-IsBalanced :
    (text : Bytes) (ts : List Token) → tokenize text ≡ some (ts, []) → IsBalanced ts
unfolding tokenize
tokenize-IsBalanced text ts e =
    let (s, read, nested) = all_read text in
    let given : List Token × List Diagnostic = (ts, []) in
    let done : List Token × List Diagnostic = (reverse (finish s).out, reverse (finish s).diags) in
    let both : done ≡ given =
      ap (λ o. elim o [ none ↦ done | some d ↦ d ]) (rw (tokenize, read) at e) in
    let no_report : (finish s).diags ≡ [] =
      sym (reverse-reverse (finish s).diags) ∙ ap (λ r. reverse r.1) both in
    rw (← ap (λ r. r.0) both)
      (nesting-reverse (finish s).out ∙ finish-Closed s nested (ap length no_report))
