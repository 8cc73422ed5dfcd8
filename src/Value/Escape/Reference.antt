-- ===== src/Value/Escape/Reference.antt =====
-- `escapar_valido` of src/odio/value.cpp, which passes over clean blocks of eight bytes, against the
-- escape of one byte after another.
use osodio.Prelude.{
  Bytes, IsByte, ℕ, zero, suc, ◌≡◌, refl, false, not, ◌&&◌, [], ◌∷◌, ◌++◌, take, All, if◌then◌else◌,
  arith, Bool-cases, inl, inr, ap,
}
use mathlib.Core.Path.{ap₂}
use osodio.Value.Swar.{word, bloque_sucio, IsClean, bloque_sucio-IsClean}
use osodio.Value.Utf8.{has_eight}
use osodio.Value.Utf8.Valid.{All-take, length-take_le}
use osodio.Value.Escape.{
  sucio, escape_de, Fase, saltar, buscar, byte_a_byte, paso, escapar_desde, escapar_valido,
}

unfoldable pub escapar_bytes : Bytes → Bytes
escapar_bytes [] = []
escapar_bytes (c ∷ s) = (if sucio c then escape_de c else c ∷ []) ++ escapar_bytes s

-- The bytes that a phase still passes over are clean.
abbrev FaseOk : Fase → Bytes → Type 0
FaseOk (saltar n) s = All IsClean (take n s)
FaseOk buscar s = Unit

clean-sucio : (c : ℕ) → IsClean c → sucio c ≡ false
clean-sucio c h = ground arith

-- A phase that is right leaves the next one right, and puts out the escape of its byte.
paso-FaseOk :
    (fase : Fase) (c : ℕ) (s : Bytes)
    → All IsByte (c ∷ s)
    → FaseOk fase (c ∷ s)
    → ((paso fase c s).0 ≡ (if sucio c then escape_de c else c ∷ [])) × FaseOk (paso fase c s).1 s
unfolding paso
paso-FaseOk (saltar (suc n)) c s h (k, ks) = (rw (clean-sucio c k), ks)
paso-FaseOk (saltar zero) c s h k =
    elim (Bool-cases (has_eight (c ∷ s) && not (bloque_sucio (word (take 8 (c ∷ s)))))) [
      | inl block ↦
          let clean =
            bloque_sucio-IsClean (take 8 (c ∷ s)) (length-take_le 8 (c ∷ s) (ground arith))
              (All-take IsByte 8 (c ∷ s) h) (ground arith) in
          rw (block, clean-sucio c clean.0) (refl, clean.1)
      | inr other ↦ rw other (both c s)
    ]
  where
    both :
        (c : ℕ) (s : Bytes)
        → ((byte_a_byte c).0 ≡ (if sucio c then escape_de c else c ∷ []))
          × FaseOk (byte_a_byte c).1 s
    both c s = elim (Bool-cases (sucio c)) [ inl e ↦ rw e (refl, tt) | inr e ↦ rw e (refl, tt) ]
paso-FaseOk buscar c s h k = elim (Bool-cases (sucio c)) [
  | inl e ↦ rw e (refl, tt)
  | inr e ↦ rw e (refl, tt)
]

escapar_desde-bytes :
    (fase : Fase) (s : Bytes)
    → All IsByte s
    → FaseOk fase s
    → escapar_desde fase s ≡ escapar_bytes s
unfolding escapar_desde escapar_bytes
escapar_desde-bytes fase [] h k = refl
escapar_desde-bytes fase (c ∷ s) (hc, h) k =
    let (out, next) = paso-FaseOk fase c s (hc, h) k in
    ap₂ ◌++◌ out (escapar_desde-bytes (paso fase c s).1 s h next)

-- Passing over clean blocks writes the same text as looking at every byte.
pub escapar_valido-bytes :
    (s : Bytes) → All IsByte s → escapar_valido s ≡ b'"' ∷ (escapar_bytes s ++ b'"' ∷ [])
unfolding escapar_valido
escapar_valido-bytes s h = ap (λ t. b'"' ∷ (t ++ b'"' ∷ [])) (escapar_desde-bytes (saltar 0) s h tt)
