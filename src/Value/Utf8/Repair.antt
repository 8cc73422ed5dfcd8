-- ===== src/Value/Utf8/Repair.antt =====
-- `sanear_utf8` of src/odio/value.cpp against the well-formed texts of RFC 3629.
use osodio.Prelude.{
  Bytes, IsByte, ℕ, zero, suc, ◌<◌, ◌≡◌, refl, sym, ◌∙◌, true, [], ◌∷◌, length, All, arith, inl,
  inr,
}
use mathlib.Core.Bool.{false≢true}
use osodio.Value.Utf8.Valid.{ℕ-cases, secuencias-sanear_desde, sanear_desde_of_secuencias}
use osodio.Value.Utf8.{largo_utf8, secuencias, sanear_utf8, sanear_desde}
use osodio.Value.Utf8.Standard.{Sequence, Sequence-length, IsUtf8, ends, follows}
use osodio.Value.Utf8.Lengths.{largo-Read}

-- A row of sequences is a well-formed text, and the other way round.
secuencias-IsUtf8_below :
    (n : ℕ) (s : Bytes) → length s < n → All IsByte s → secuencias 0 s ≡ true → IsUtf8 s
unfolding secuencias
secuencias-IsUtf8_below zero s lt h e = absurd (omega arith)
secuencias-IsUtf8_below (suc n) [] lt h e = ends
secuencias-IsUtf8_below (suc n) (c ∷ s) lt (hc, h) e = elim (ℕ-cases (largo_utf8 c s)) [
  | inl bad ↦ absurd (false≢true (rw (secuencias, bad) at e))
  | inr (k, good) ↦
      let (r, q, same, shorter, hr) = largo-Read c s k h good in
      follows q (
        secuencias-IsUtf8_below n r (omega (arith, shorter, lt)) hr
          (sym same ∙ (rw (secuencias, good) at e)))
]

pub secuencias-IsUtf8 : (s : Bytes) → All IsByte s → secuencias 0 s ≡ true → IsUtf8 s
secuencias-IsUtf8 s = secuencias-IsUtf8_below (suc (length s)) s (omega arith)

Sequence-secuencias : (s r : Bytes) → Sequence s r → secuencias 0 s ≡ secuencias 0 r
unfolding secuencias
Sequence-secuencias [] r q = elim q [ ]
Sequence-secuencias (c ∷ s) r q =
    let (k, measured, same) = Sequence-length q in rw (secuencias, measured) same

pub IsUtf8-secuencias : {s : Bytes} → IsUtf8 s → secuencias 0 s ≡ true
unfolding secuencias
IsUtf8-secuencias ends = refl
IsUtf8-secuencias (follows {s = s} {r = r} q u) = Sequence-secuencias s r q ∙ IsUtf8-secuencias u

-- The repaired text is one of bytes.
sanear_desde-IsByte : (k : ℕ) (s : Bytes) → All IsByte s → All IsByte (sanear_desde k s)
unfolding sanear_desde
sanear_desde-IsByte k [] h = tt
sanear_desde-IsByte (suc k) (c ∷ s) (hc, h) = (hc, sanear_desde-IsByte k s h)
sanear_desde-IsByte zero (c ∷ s) (hc, h) = elim (ℕ-cases (largo_utf8 c s)) [
  | inl bad ↦
      rw (sanear_desde, bad) (omega arith, (omega arith, (omega arith, sanear_desde-IsByte 0 s h)))
  | inr (k, good) ↦ rw (sanear_desde, good) (hc, sanear_desde-IsByte k s h)
]

-- Whatever the bytes, the repaired text is well-formed UTF-8, as RFC 3629 has it.
pub sanear_utf8-IsUtf8 : (s : Bytes) → All IsByte s → IsUtf8 (sanear_utf8 s)
unfolding sanear_utf8
sanear_utf8-IsUtf8 s h =
    secuencias-IsUtf8 (sanear_utf8 s) (sanear_desde-IsByte 0 s h) (secuencias-sanear_desde 0 s)

-- A text that is well-formed UTF-8, as RFC 3629 has it, is left as it is.
pub sanear_utf8_of_IsUtf8 : (s : Bytes) → IsUtf8 s → sanear_utf8 s ≡ s
unfolding sanear_utf8
sanear_utf8_of_IsUtf8 s u = sanear_desde_of_secuencias 0 s (IsUtf8-secuencias u)
