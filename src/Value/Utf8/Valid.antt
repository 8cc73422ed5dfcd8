-- ===== src/Value/Utf8/Valid.antt =====
-- `utf8_valido` and `sanear_utf8` of src/odio/value.cpp against one sequence after another.
use osodio.Prelude.{
  Bytes, IsByte, ℕ, zero, suc, ◌≤◌, ◌<◌, ◌≡◌, refl, Bool, true, false, ◌&&◌, [], ◌∷◌, length, take,
  All, ltb, arith, Bool-cases, ◌⊎◌, inl, inr, ap, ◌∙◌, lt→ltb,
}
use osodio.Value.Swar.{word, bloque_ascii, bloque_ascii-lt}
use osodio.Value.Utf8.{has_eight, largo_utf8, recorrer, utf8_valido, sanear_desde, secuencias}

ascii_skip :
    (k : ℕ) (s : Bytes)
    → k ≤ length s
    → All (λ c. c < 0x80) (take k s)
    → secuencias k s ≡ secuencias 0 s
unfolding secuencias largo_utf8
ascii_skip zero s h a = refl
ascii_skip (suc k) [] h a = refl
ascii_skip (suc k) (c ∷ s) h (lo, a) = ground (arith, ascii_skip k s)

pub All-take {ℓ} : (P : ℕ → Type ℓ) (n : ℕ) (s : Bytes) → All P s → All P (take n s)
All-take P zero s h = tt
All-take P (suc n) [] h = tt
All-take P (suc n) (c ∷ s) (p, h) = (p, All-take P n s h)

pub length-take_le : (n : ℕ) (s : Bytes) → n ≤ length s → length (take n s) ≡ n
length-take_le zero s h = refl
length-take_le (suc n) [] h = absurd (omega arith)
length-take_le (suc n) (c ∷ s) h = ap suc (length-take_le n s (omega arith))

-- A round of the loop, where the rest of the text has been compared.
module _ (c : ℕ) (s : Bytes) (hc : IsByte c) (h : All IsByte s)
    (ih : (k : ℕ) → recorrer k s ≡ secuencias k s) where
  abbrev block : Bool
  block = has_eight (c ∷ s) && bloque_ascii (word (take 8 (c ∷ s)))

  after_block : block ≡ true → recorrer 0 (c ∷ s) ≡ secuencias 0 (c ∷ s)
  unfolding recorrer secuencias largo_utf8
  after_block e =
      let long : 8 ≤ length (c ∷ s) = ground arith in
      let ascii =
        bloque_ascii-lt (take 8 (c ∷ s)) (length-take_le 8 (c ∷ s) long)
          (All-take IsByte 8 (c ∷ s) (hc, h)) (ground arith) in
      let first : ltb c 0x80 ≡ true = lt→ltb c 0x80 ascii.0 in
      ground (arith, ih 7 ∙ ascii_skip 7 s (omega arith) ascii.1)

  measured :
      (n : ℕ)
      → ◌≡◌ {A = Bool}
          (elim n [ zero ↦ false | suc skip ↦ recorrer skip s ])
          (elim n [ zero ↦ false | suc skip ↦ secuencias skip s ])
  measured zero = refl
  measured (suc k) = ih k

  after_bytes : block ≡ false → recorrer 0 (c ∷ s) ≡ secuencias 0 (c ∷ s)
  unfolding recorrer secuencias
  after_bytes e = elim (Bool-cases (ltb c 0x80)) [
    | inl low ↦ let one : largo_utf8 c s ≡ 1 = unfold largo_utf8 in rw low in ground (arith, ih 0)
    | inr high ↦ ground (arith, measured (largo_utf8 c s))
  ]

recorrer-secuencias : (k : ℕ) (s : Bytes) → All IsByte s → recorrer k s ≡ secuencias k s
unfolding recorrer secuencias
recorrer-secuencias zero [] h = refl
recorrer-secuencias (suc k) [] h = refl
recorrer-secuencias (suc k) (c ∷ s) (hc, h) = recorrer-secuencias k s h
recorrer-secuencias zero (c ∷ s) (hc, h) =
    let ih = λ (k : ℕ). recorrer-secuencias k s h in
    elim (Bool-cases (block c s hc h ih)) [
      | inl e ↦ after_block c s hc h ih e
      | inr e ↦ after_bytes c s hc h ih e
    ]

-- Skipping eight ASCII bytes at a time decides the same as reading one sequence after another.
pub utf8_valido-secuencias : (s : Bytes) → All IsByte s → utf8_valido s ≡ secuencias 0 s
unfolding utf8_valido
utf8_valido-secuencias s h = recorrer-secuencias 0 s h

pub ℕ-cases : (n : ℕ) → (n ≡ 0) ⊎ ((k : ℕ) × (n ≡ suc k))
ℕ-cases zero = inl refl
ℕ-cases (suc k) = inr (k, refl)

replaced : (s : Bytes) → secuencias 0 (0xEF ∷ 0xBF ∷ 0xBD ∷ s) ≡ secuencias 0 s
unfolding secuencias largo_utf8
replaced s = refl

largo_utf8-sanear :
    (c : ℕ) (s : Bytes) (k : ℕ) → largo_utf8 c s ≡ suc k → largo_utf8 c (sanear_desde k s) ≡ suc k
unfolding largo_utf8 sanear_desde
largo_utf8-sanear c s zero e = ground arith
largo_utf8-sanear c [] (suc k) e = ground arith
largo_utf8-sanear c (d ∷ s) (suc zero) e = ground arith
largo_utf8-sanear c (d ∷ []) (suc (suc k)) e = ground arith
largo_utf8-sanear c (d ∷ f ∷ s) (suc (suc zero)) e = ground arith
largo_utf8-sanear c (d ∷ f ∷ []) (suc (suc (suc k))) e = ground arith
largo_utf8-sanear c (d ∷ f ∷ g ∷ s) (suc (suc (suc zero))) e = ground arith
largo_utf8-sanear c (d ∷ f ∷ g ∷ s) (suc (suc (suc (suc k)))) e = ground arith

secuencias_measured :
    (c : ℕ) (s : Bytes) (k : ℕ) → largo_utf8 c s ≡ suc k → secuencias 0 (c ∷ s) ≡ secuencias k s
unfolding secuencias
secuencias_measured c s k e = rw (e, secuencias)

pub secuencias-sanear_desde : (k : ℕ) (s : Bytes) → secuencias k (sanear_desde k s) ≡ true
unfolding secuencias sanear_desde
secuencias-sanear_desde zero [] = refl
secuencias-sanear_desde (suc k) [] = refl
secuencias-sanear_desde (suc k) (c ∷ s) = secuencias-sanear_desde k s
secuencias-sanear_desde zero (c ∷ s) = elim (ℕ-cases (largo_utf8 c s)) [
  | inl bad ↦ rw (bad, sanear_desde) (replaced (sanear_desde 0 s) ∙ secuencias-sanear_desde 0 s)
  | inr (k, good) ↦
      rw (good, sanear_desde)
        (secuencias_measured c (sanear_desde k s) k (largo_utf8-sanear c s k good)
          ∙ secuencias-sanear_desde k s)
]

pub sanear_desde_of_secuencias : (k : ℕ) (s : Bytes) → secuencias k s ≡ true → sanear_desde k s ≡ s
unfolding secuencias sanear_desde
sanear_desde_of_secuencias zero [] h = refl
sanear_desde_of_secuencias (suc k) [] h = refl
sanear_desde_of_secuencias (suc k) (c ∷ s) h = ap (λ t. c ∷ t) (sanear_desde_of_secuencias k s h)
sanear_desde_of_secuencias zero (c ∷ s) h = elim (ℕ-cases (largo_utf8 c s)) [
  | inl bad ↦ absurd (ground arith)
  | inr (k, good) ↦
      rw (good, sanear_desde)
        (ap (λ t. c ∷ t) (sanear_desde_of_secuencias k s (rw (good, secuencias) at h)))
]
