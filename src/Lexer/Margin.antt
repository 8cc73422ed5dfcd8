-- ===== src/Lexer/Margin.antt =====
-- Strings in three quotes, in `sin_margen` of src/odio/lexer.cpp.
use mathlib.Core.List.{append_assoc, append-nil}
use mathlib.Core.Path.{ap₂}
use osodio.Prelude.{
  Bytes, ℕ, zero, suc, ◌+◌, ◌≡◌, refl, ap, sym, ◌∙◌, Bool, true, false, not, List, [], ◌∷◌, ◌++◌,
  Option, none, some, arith, ◌==◌, ◌||◌, map, any, drop, replicate,
}
use osodio.Lexer.Text.{
  is_blank, lines, unlines, drop_blank_last, margin_of, lesser, common_margin, without_first_break,
  sin_margen,
}

abbrev spaces : ℕ → Bytes
spaces n = replicate n b' '

-- A line that is written `n` columns deeper; an empty one is left empty.
abbrev pub indented : ℕ → Bytes → Bytes
indented n [] = []
indented n (c ∷ l) = spaces n ++ c ∷ l

abbrev is_break : ℕ → Bool
is_break c = c == b'\n'

abbrev pub has_break : List Bytes → Bool
has_break ls = any (any is_break) ls

-- A string in three quotes, with the closing ones on a line that has `m` spaces.
abbrev pub written : (n m : ℕ) → List Bytes → Bytes
written n m ls = b'\n' ∷ unlines (map (indented n) ls ++ spaces m ∷ [])

both_false : (a b : Bool) → a || b ≡ false → (a ≡ false) × (b ≡ false)
both_false false b h = (refl, h)
both_false true b h = cc

lines-line : (acc l : Bytes) → any is_break l ≡ false → lines acc l ≡ (acc ++ l) ∷ []
unfolding lines
lines-line acc [] h = ap (λ k. k ∷ []) (sym (append-nil acc))
lines-line acc (c ∷ l) h =
    let (first, more) = both_false (is_break c) (any is_break l) h in
    rw (lines, first)
      (lines-line (acc ++ c ∷ []) l more ∙ ap (λ k. k ∷ []) (append_assoc acc (c ∷ []) l))

lines-break :
    (acc l r : Bytes)
    → any is_break l ≡ false
    → lines acc (l ++ b'\n' ∷ r) ≡ (acc ++ l) ∷ lines [] r
unfolding lines
lines-break acc [] r h = ap (λ k. k ∷ lines [] r) (sym (append-nil acc))
lines-break acc (c ∷ l) r h =
    let (first, more) = both_false (is_break c) (any is_break l) h in
    rw (lines, first)
      (lines-break (acc ++ c ∷ []) l r more
        ∙ ap (λ k. k ∷ lines [] r) (append_assoc acc (c ∷ []) l))

lines-unlines :
    (l : Bytes) (ls : List Bytes)
    → has_break (l ∷ ls) ≡ false
    → lines [] (unlines (l ∷ ls)) ≡ l ∷ ls
unfolding unlines
lines-unlines l [] h = lines-line [] l (both_false (any is_break l) false h).0
lines-unlines l (m ∷ ls) h =
    let (first, more) = both_false (any is_break l) (has_break (m ∷ ls)) h in
    lines-break [] l _ first ∙ ap (λ r. l ∷ r) (lines-unlines m ls more)

drop_blank_last-blank :
    (l b : Bytes) (ls : List Bytes)
    → any (λ c. not (is_blank c)) b ≡ false
    → drop_blank_last ((l ∷ ls) ++ b ∷ []) ≡ l ∷ ls
unfolding drop_blank_last
drop_blank_last-blank l b [] h = rw h refl
drop_blank_last-blank l b (m ∷ []) h = ap (λ r. l ∷ r) (drop_blank_last-blank m b [] h)
drop_blank_last-blank l b (m ∷ n ∷ ls) h = ap (λ r. l ∷ r) (drop_blank_last-blank m b (n ∷ ls) h)

blank-spaces : (m : ℕ) → any (λ c. not (is_blank c)) (spaces m) ≡ false
blank-spaces zero = refl
blank-spaces (suc m) = blank-spaces m

no_break-spaces : (m : ℕ) (l : Bytes) → any is_break (spaces m ++ l) ≡ any is_break l
no_break-spaces zero l = refl
no_break-spaces (suc m) l = no_break-spaces m l

no_break-all : (m : ℕ) → any is_break (spaces m) ≡ false
no_break-all zero = refl
no_break-all (suc m) = no_break-all m

no_break-indented : (n : ℕ) (l : Bytes) → any is_break (indented n l) ≡ any is_break l
no_break-indented n [] = refl
no_break-indented n (c ∷ l) = no_break-spaces n (c ∷ l)

no_break-written :
    (n m : ℕ) (ls : List Bytes)
    → has_break ls ≡ false
    → has_break (map (indented n) ls ++ spaces m ∷ []) ≡ false
no_break-written n m [] h = rw (no_break-all m) refl
no_break-written n m (l ∷ ls) h =
    let (first, more) = both_false (any is_break l) (has_break ls) h in
    rw (no_break-indented n l, first) (no_break-written n m ls more)

-- The margin of a line or of lines that are written `n` columns deeper.
abbrev deeper : ℕ → Option ℕ → Option ℕ
deeper n none = none
deeper n (some k) = some (n + k)

margin_of-spaces : (n : ℕ) (l : Bytes) → margin_of (spaces n ++ l) ≡ deeper n (margin_of l)
unfolding margin_of
margin_of-spaces zero l = ground arith
margin_of-spaces (suc n) l = rw (margin_of, margin_of-spaces n l) (ground arith)

margin_of-indented : (n : ℕ) (l : Bytes) → margin_of (indented n l) ≡ deeper n (margin_of l)
unfolding margin_of
margin_of-indented n [] = refl
margin_of-indented n (c ∷ l) = margin_of-spaces n (c ∷ l)

lesser-deeper : (n : ℕ) (a b : Option ℕ) → lesser (deeper n a) (deeper n b) ≡ deeper n (lesser a b)
lesser-deeper n none b = refl
lesser-deeper n (some j) none = refl
lesser-deeper n (some j) (some k) = ground arith

common_margin-indented :
    (n : ℕ) (ls : List Bytes) → common_margin (map (indented n) ls) ≡ deeper n (common_margin ls)
unfolding common_margin
common_margin-indented n [] = refl
common_margin-indented n (l ∷ ls) =
    rw (margin_of-indented n l, common_margin-indented n ls)
      (lesser-deeper n (margin_of l) (common_margin ls))

drop-spaces : (n : ℕ) (l : Bytes) → drop n (spaces n ++ l) ≡ l
drop-spaces zero l = refl
drop-spaces (suc n) l = drop-spaces n l

drop-indented : (n : ℕ) (l : Bytes) → drop n (indented n l) ≡ l
drop-indented zero [] = refl
drop-indented (suc n) [] = refl
drop-indented n (c ∷ l) = drop-spaces n (c ∷ l)

drop_all-indented : (n : ℕ) (ls : List Bytes) → map (drop n) (map (indented n) ls) ≡ ls
drop_all-indented n [] = refl
drop_all-indented n (l ∷ ls) = ap₂ (λ x xs. x ∷ xs) (drop-indented n l) (drop_all-indented n ls)

after_break : (s : Bytes) → without_first_break (b'\n' ∷ s) ≡ s
unfolding without_first_break
after_break [] = refl
after_break (c ∷ s) = refl

-- What is read of a text that is written deeper, before its margin is dropped.
read-written :
    (n m : ℕ) (l : Bytes) (ls : List Bytes)
    → has_break (l ∷ ls) ≡ false
    → drop_blank_last (lines [] (without_first_break (written n m (l ∷ ls))))
      ≡ map (indented n) (l ∷ ls)
read-written n m l ls h =
    ap (λ s. drop_blank_last (lines [] s)) (after_break _)
    ∙ ap drop_blank_last (lines-unlines (indented n l) _ (no_break-written n m (l ∷ ls) h))
    ∙ drop_blank_last-blank (indented n l) (spaces m) (map (indented n) ls) (blank-spaces m)

-- Lines without breaks, one of which starts with neither a space nor a carriage return, that are
-- written deeper between quotes on lines of their own, come out of `sin_margen` as they are.
pub sin_margen-written :
    (n m : ℕ) (ls : List Bytes)
    → has_break ls ≡ false
    → common_margin ls ≡ some 0
    → sin_margen (written n m ls) ≡ unlines ls
unfolding sin_margen common_margin
sin_margen-written n m [] h e = cc
sin_margen-written n m (l ∷ ls) h e =
    let margin : common_margin (map (indented n) (l ∷ ls)) ≡ some n =
      common_margin-indented n (l ∷ ls) ∙ ap (deeper n) e ∙ ap some (omega arith) in
    ap without_margin (read-written n m l ls h)
    ∙ rw margin (ap unlines (drop_all-indented n (l ∷ ls)))
  where
    without_margin : List Bytes → Bytes
    without_margin ks = elim (common_margin ks) [
      | none ↦ unlines ks
      | some k ↦ unlines (map (drop k) ks)
    ]
