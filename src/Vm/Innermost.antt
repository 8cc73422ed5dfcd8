-- ===== src/Vm/Innermost.antt =====
-- `find_handler` of src/odio/vm.cpp: which `try` takes an error.
use osodio.Prelude.{
  ℕ, ◌+◌, ◌≤◌, ◌<◌, ◌≡◌, refl, true, List, [], ◌∷◌, ◌++◌, Option, none, some, ltb, arith, All,
  All-append, Bool-cases, inl, inr,
}
use mathlib.Core.List.{append_assoc, append-nil}
use osodio.Vm.Code.{TryRange}
use osodio.Vm.Handlers.{width, outside, better, find_from, find_handler}

-- The instruction is in the range, whose end is behind it.
abbrev pub Covers : ℕ → TryRange → Type 0
Covers pc r = (r.begin ≤ pc) × (pc < r.finish)

-- One range has fewer instructions than another: the ends less the begins.
abbrev pub Narrower : TryRange → TryRange → Type 0
Narrower r q = r.finish + q.begin < q.finish + r.begin

-- A range among others covers `pc`, is narrower than the ones before it that do, and none after it
-- that does is narrower.
abbrev pub Wider : ℕ → TryRange → TryRange → Type 0
Wider pc r q = Covers pc q → Narrower r q

abbrev pub NotNarrower : ℕ → TryRange → TryRange → Type 0
NotNarrower pc r q = Covers pc q → ¬ Narrower q r

pub record Innermost (pc : ℕ) (ranges : List TryRange) (r : TryRange) : Type 0 where
  pub before : List TryRange
  pub after : List TryRange
  pub split : ranges ≡ before ++ r ∷ after
  pub covers : Covers pc r
  pub first : All (Wider pc r) before
  pub least : All (NotNarrower pc r) after

abbrev pub Chosen : ℕ → List TryRange → Option TryRange → Type 0
Chosen pc ranges none = All (λ r. ¬ Covers pc r) ranges
Chosen pc ranges (some r) = Innermost pc ranges r

All-snoc {ℓ κ} :
    {A : Type ℓ} (P : A → Type κ) (xs : List A) (x : A) → All P xs → P x → All P (xs ++ x ∷ [])
All-snoc P xs x h p = All-append P xs (x ∷ []) h (p, tt)

All-map {ℓ κ μ} :
    {A : Type ℓ} {P : A → Type κ} {Q : A → Type μ} (xs : List A)
    → ((x : A) → P x → Q x)
    → All P xs
    → All Q xs
All-map [] f h = tt
All-map (x ∷ xs) f (p, h) = (f x p, All-map xs f h)

module _ (pc : ℕ) where
  -- One more range, which does not cover.
  skipped :
      (seen : List TryRange) (best : Option TryRange) (q : TryRange)
      → ¬ Covers pc q
      → Chosen pc seen best
      → Chosen pc (seen ++ q ∷ []) best
  skipped seen none q out h = All-snoc _ seen q h out
  skipped seen (some r) q out h = record {
    before = h.before;
    after = h.after ++ q ∷ [];
    split = rw (h.split, append_assoc) refl;
    covers = h.covers;
    first = h.first;
    least = All-snoc _ h.after q h.least (λ e. absurd (out e));
  }

  shorter :
      (q b r : TryRange)
      → ltb (width q) (width b) ≡ true
      → Covers pc q
      → Covers pc b
      → Covers pc r
      → Narrower b r
      → Narrower q r
  shorter q b r l hq hb hr n = ground (arith, hq, hb, hr)

  no_longer :
      (q b r : TryRange)
      → ltb (width q) (width b) ≡ true
      → Covers pc q
      → Covers pc b
      → Covers pc r
      → ¬ Narrower r b
      → Narrower q r
  no_longer q b r l hq hb hr n = elim (Bool-cases (ltb (r.finish + b.begin) (b.finish + r.begin))) [
    | inl less ↦ absurd (n (ground arith))
    | inr more ↦ ground (arith, hq, hb, hr)
  ]

  -- One more range, which covers.
  taken :
      (seen : List TryRange) (best : Option TryRange) (q : TryRange)
      → Covers pc q
      → Chosen pc seen best
      → Chosen pc (seen ++ q ∷ []) (better best q)
  taken seen none q covered h = record {
    before = seen;
    after = [];
    split = refl;
    covers = covered;
    first = All-map seen (λ r out e. absurd (out e)) h;
    least = tt;
  }
  taken seen (some b) q covered h = elim (Bool-cases (ltb (width q) (width b))) [
    | inl narrower ↦ rw narrower record {
      before = seen;
      after = [];
      split = refl;
      covers = covered;
      first = rw h.split (
          All-append (Wider pc q) h.before (b ∷ h.after)
            (All-map h.before (λ r wider e. shorter q b r narrower covered h.covers e (wider e))
              h.first)
            (
              (λ e. ground (arith, covered)),
              All-map h.after (λ r wider e. no_longer q b r narrower covered h.covers e (wider e))
                  h.least,
            ));
      least = tt;
    }
    | inr wider ↦ rw wider record {
      before = h.before;
      after = h.after ++ q ∷ [];
      split = rw (h.split, append_assoc) refl;
      covers = h.covers;
      first = h.first;
      least = All-snoc _ h.after q h.least (λ e k. ground (arith, covered, h.covers, wider, k));
    }
  ]

  find_from-Chosen :
      (rs seen : List TryRange) (best : Option TryRange)
      → Chosen pc seen best
      → Chosen pc (seen ++ rs) (find_from best rs pc)
  unfolding find_from
  find_from-Chosen [] seen best h = rw append-nil h
  find_from-Chosen (q ∷ rs) seen best h = elim (Bool-cases (outside pc q)) [
    | inl out ↦
        rw (find_from, out, ← append_assoc seen (q ∷ []) rs)
          (find_from-Chosen rs (seen ++ q ∷ []) best
            (skipped seen best q (λ k. ground (arith, out, k)) h))
    | inr covered ↦
        rw (find_from, covered, ← append_assoc seen (q ∷ []) rs)
          (find_from-Chosen rs (seen ++ q ∷ []) (better best q)
            (taken seen best q (ground (arith, covered)) h))
  ]

  -- The handler of an instruction is the first of the narrowest ranges that cover it, and there is
  -- none only when no range does.
  pub find_handler-Chosen : (ranges : List TryRange) → Chosen pc ranges (find_handler ranges pc)
  unfolding find_handler
  find_handler-Chosen ranges = find_from-Chosen ranges [] none tt
