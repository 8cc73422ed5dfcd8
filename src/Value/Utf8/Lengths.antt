-- ===== src/Value/Utf8/Lengths.antt =====
-- `largo_utf8` of src/odio/value.cpp against the sequences of RFC 3629, byte by byte.
use mathlib.Core.Path.{subst}
use osodio.Prelude.{
  Bytes, IsByte, ℕ, zero, suc, ◌≤◌, ◌≡◌, refl, sym, true, [], ◌∷◌, length, All, ltb, ◌==◌, arith,
  Bool-cases, inl, inr,
}
use osodio.Value.Utf8.{largo_utf8, cont, secuencias}
use osodio.Value.Utf8.Standard.{
  Sequence, one, two, three_e0, three_low, three_ed, three_high, four_f0, four, four_f4, cont-Tail,
}

-- What is measured is a sequence.
abbrev pub Read : ℕ → Bytes → ℕ → Type 0
Read c s k =
    (r : Bytes) × Sequence (c ∷ s) r
    × (secuencias k s ≡ secuencias 0 r)
    × (length r ≤ length s)
    × All IsByte r

module _ (c d e : ℕ) (r : Bytes) where
  record Three : Type 0 where
    low : 0xE0 ≤ c
    high : c ≤ 0xEF
    first : cont (d ∷ e ∷ r) ≡ true
    second : cont (e ∷ r) ≡ true
    not_short : c ≡ 0xE0 → 0xA0 ≤ d
    no_surrogate : c ≡ 0xED → d ≤ 0x9F

  three_facts : largo_utf8 c (d ∷ e ∷ r) ≡ 3 → Three
  unfolding largo_utf8
  three_facts m = record {
    low = ground arith;
    high = ground arith;
    first = ground arith;
    second = ground arith;
    not_short = λ k. ground arith;
    no_surrogate = λ k. ground arith;
  }

  three-Sequence : Three → IsByte d → IsByte e → Sequence (c ∷ d ∷ e ∷ r) r
  three-Sequence t bd be =
      let hd = cont-Tail d (e ∷ r) bd t.first in
      let he = cont-Tail e r be t.second in
      elim (Bool-cases (c == 0xE0)) [
        | inl e0 ↦
            let is : 0xE0 ≡ c = ground arith in
            subst (λ x. Sequence (x ∷ d ∷ e ∷ r) r) is (three_e0 (t.not_short (sym is)) hd.1 he)
        | inr above ↦ elim (Bool-cases (ltb c 0xED)) [
          | inl below ↦ three_low (ground (arith, t.low)) (ground arith) hd he
          | inr more ↦ elim (Bool-cases (c == 0xED)) [
            | inl ed ↦
                let is : 0xED ≡ c = ground arith in
                subst (λ x. Sequence (x ∷ d ∷ e ∷ r) r) is
                  (three_ed hd.0 (t.no_surrogate (sym is)) he)
            | inr after ↦ three_high (ground arith) t.high hd he
          ]
        ]
      ]

module _ (c d e f : ℕ) (r : Bytes) where
  record Four : Type 0 where
    low : 0xF0 ≤ c
    high : c ≤ 0xF4
    first : cont (d ∷ e ∷ f ∷ r) ≡ true
    second : cont (e ∷ f ∷ r) ≡ true
    third : cont (f ∷ r) ≡ true
    not_short : c ≡ 0xF0 → 0x90 ≤ d
    not_beyond : c ≡ 0xF4 → d ≤ 0x8F

  four_facts : largo_utf8 c (d ∷ e ∷ f ∷ r) ≡ 4 → Four
  unfolding largo_utf8
  four_facts m = record {
    low = ground arith;
    high = ground arith;
    first = ground arith;
    second = ground arith;
    third = ground arith;
    not_short = λ k. ground arith;
    not_beyond = λ k. ground arith;
  }

  four-Sequence : Four → IsByte d → IsByte e → IsByte f → Sequence (c ∷ d ∷ e ∷ f ∷ r) r
  four-Sequence t bd be bf =
      let hd = cont-Tail d (e ∷ f ∷ r) bd t.first in
      let he = cont-Tail e (f ∷ r) be t.second in
      let hf = cont-Tail f r bf t.third in
      elim (Bool-cases (c == 0xF0)) [
        | inl f0 ↦
            let is : 0xF0 ≡ c = ground arith in
            subst (λ x. Sequence (x ∷ d ∷ e ∷ f ∷ r) r) is
              (four_f0 (t.not_short (sym is)) hd.1 he hf)
        | inr above ↦ elim (Bool-cases (c == 0xF4)) [
          | inl f4 ↦
              let is : 0xF4 ≡ c = ground arith in
              subst (λ x. Sequence (x ∷ d ∷ e ∷ f ∷ r) r) is
                (four_f4 hd.0 (t.not_beyond (sym is)) he hf)
          | inr between ↦ four (ground (arith, t.low)) (ground (arith, t.high)) hd he hf
        ]
      ]

pub largo-Read : (c : ℕ) (s : Bytes) (k : ℕ) → All IsByte s → largo_utf8 c s ≡ suc k → Read c s k
unfolding secuencias largo_utf8
largo-Read c s zero h m = (s, one (ground arith), refl, omega arith, h)
largo-Read c (d ∷ r) (suc zero) (bd, h) m =
    (r, two (ground arith) (ground arith) (cont-Tail d r bd (ground arith)), refl, omega arith, h)
largo-Read c (d ∷ e ∷ r) (suc (suc zero)) (bd, (be, h)) m =
    (r, three-Sequence c d e r (three_facts c d e r m) bd be, refl, omega arith, h)
largo-Read c (d ∷ e ∷ f ∷ r) (suc (suc (suc zero))) (bd, (be, (bf, h))) m =
    (r, four-Sequence c d e f r (four_facts c d e f r m) bd be bf, refl, omega arith, h)
largo-Read c [] (suc k) h m = absurd (ground arith)
largo-Read c (d ∷ []) (suc (suc k)) h m = absurd (ground arith)
largo-Read c (d ∷ e ∷ []) (suc (suc (suc k))) h m = absurd (ground arith)
largo-Read c (d ∷ e ∷ f ∷ r) (suc (suc (suc (suc k)))) h m = absurd (ground arith)
