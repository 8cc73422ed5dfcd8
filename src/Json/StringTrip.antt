-- ===== src/Json/StringTrip.antt =====
-- `cadena` of src/odio/json_parse.cpp on what `escapar_valido` of src/odio/value.cpp writes.
use Prim.Native.Nat.{bit_or}
use osodio.Bits.{bit_or-shift}
use osodio.Prelude.{
  Bytes, ℕ, zero, suc, ◌+◌, ◌*◌, ◌/◌, ◌%◌, ◌^◌, ◌≤◌, ◌<◌, ◌≡◌, refl, true, false, Option, none,
  some, [], ◌∷◌, ◌++◌, length, length-append, drop, ◌==◌, if◌then◌else◌, arith, Bool-cases, inl,
  inr, ap, ◌∙◌,
}
use mathlib.Core.List.{append_assoc}
use osodio.Value.Escape.{sucio, escape_de, hex_digit}
use osodio.Value.Escape.Reference.{escapar_bytes}
use osodio.Json.Text.{
  Parsed, got, bad, spent, hex_value, hex_from, hex4, utf8, sigue, escape, trozo, put, cadena_desde,
  camino_rapido, tras_rapido, cadena,
}

hex_value-hex_digit : (d : ℕ) → d < 16 → hex_value (hex_digit d) ≡ some d
hex_value-hex_digit d h = ground arith

bit_or-hex : (a d : ℕ) → a < 16 → d < 16 → bit_or (a * 16 % 2 ^ 32) d ≡ a * 16 + d
bit_or-hex a d ha hd =
    let e : a * 16 % 2 ^ 32 ≡ a * 16 = omega arith in rw e (bit_or-shift 4 a d hd)

hex_from-hex_digit :
    (k a d : ℕ) (t : Bytes)
    → a < 16
    → d < 16
    → hex_from (suc k) a (hex_digit d ∷ t) ≡ hex_from k (a * 16 + d) t
unfolding hex_from
hex_from-hex_digit k a d t ha hd = ground (arith, hex_value-hex_digit d hd, bit_or-hex a d ha hd)

-- `\u00xy` is read as the byte that it stands for.
hex4-control :
    (c : ℕ) (t : Bytes)
    → c < 0x80
    → hex4 (b'0' ∷ b'0' ∷ hex_digit (c / 16 % 16) ∷ hex_digit (c % 16) ∷ t) ≡ some (c, t)
hex4-control c t h =
    let zeros : hex4 (b'0' ∷ b'0' ∷ hex_digit (c / 16 % 16) ∷ hex_digit (c % 16) ∷ t)
        ≡ hex_from 2 0 (hex_digit (c / 16 % 16) ∷ hex_digit (c % 16) ∷ t) =
      unfold hex_from in refl in
    let e : (0 * 16 + c / 16 % 16) * 16 + c % 16 ≡ c = omega arith in
    zeros
    ∙ hex_from-hex_digit 1 0 (c / 16 % 16) (hex_digit (c % 16) ∷ t) (omega arith) (omega arith)
    ∙ hex_from-hex_digit 0 (0 * 16 + c / 16 % 16) (c % 16) t (omega arith) (omega arith)
    ∙ unfold hex_from in ap (λ n. some (n, t)) e

trozo-escape : (c : ℕ) (t : Bytes) → sucio c ≡ true → trozo (escape_de c ++ t) ≡ sigue (c ∷ []) t
unfolding trozo escape escape_de utf8
trozo-escape c t h = ground (arith, hex4-control c t)

-- One byte of the text as it is written.
abbrev item : ℕ → Bytes
item c = if sucio c then escape_de c else c ∷ []

trozo-item : (c : ℕ) (t : Bytes) → trozo (item c ++ t) ≡ sigue (c ∷ []) t
trozo-item c t = elim (Bool-cases (sucio c)) [
  | inl e ↦ rw e (trozo-escape c t e)
  | inr e ↦ rw e (unfold trozo in ground arith)
]

cadena_desde-escapar :
    (rounds : ℕ) (s t : Bytes)
    → length s < rounds
    → cadena_desde rounds (escapar_bytes s ++ b'"' ∷ t) ≡ got s t
unfolding escapar_bytes cadena_desde
cadena_desde-escapar zero s t h = absurd (omega arith)
cadena_desde-escapar (suc rounds) [] t h = unfold trozo in refl
cadena_desde-escapar (suc rounds) (c ∷ s) t h =
    rw (append_assoc (item c) (escapar_bytes s) (b'"' ∷ t), cadena_desde, trozo-item)
      (ap (put (c ∷ [])) (cadena_desde-escapar rounds s t (omega arith)))

length-escapar : (s : Bytes) → length s ≤ length (escapar_bytes s)
unfolding escapar_bytes
length-escapar [] = omega arith
length-escapar (c ∷ s) =
    omega (arith, length-escapar s, length-append (item c) (escapar_bytes s), item_long c)
  where
    item_long : (c : ℕ) → 1 ≤ length (item c)
    item_long c = unfold escape_de in ground arith

put-put : (s u : Bytes) (r : Parsed Bytes) → put (s ++ u) r ≡ put s (put u r)
put-put s u (got v t) = ap (λ w. got w t) (append_assoc s u v)
put-put s u bad = refl
put-put s u spent = refl

tras_rapido-cons :
    (c : ℕ) (o : Option (Bytes × Bytes))
    → tras_rapido (elim o [ none ↦ none | some p ↦ some (c ∷ p.0, p.1) ])
      ≡ put (c ∷ []) (tras_rapido o)
tras_rapido-cons c none = refl
tras_rapido-cons c (some (s, [])) = refl
tras_rapido-cons c (some (s, d ∷ t)) = elim (Bool-cases (d == b'"')) [
  | inl e ↦ rw e
  | inr e ↦ rw e (put-put (c ∷ []) s (cadena_desde (suc (length (d ∷ t))) (d ∷ t)))
]

escape_de-head : (c : ℕ) → (tail : Bytes) × (escape_de c ≡ 0x5C ∷ tail)
unfolding escape_de
escape_de-head c = (drop 1 (escape_de c), ground arith)

-- The first loop stops at once at an escape, and goes on behind a clean byte.
cadena-escape_de :
    (c : ℕ) (t : Bytes)
    → cadena (escape_de c ++ t)
      ≡ put [] (cadena_desde (suc (length (escape_de c ++ t))) (escape_de c ++ t))
unfolding cadena camino_rapido
cadena-escape_de c t = let (tail, e) = escape_de-head c in rw e

cadena-clean : (c : ℕ) (t : Bytes) → sucio c ≡ false → cadena (c ∷ t) ≡ put (c ∷ []) (cadena t)
unfolding cadena camino_rapido
cadena-clean c t e = ground (arith, tras_rapido-cons c (camino_rapido t))

put-nil : (r : Parsed Bytes) → put [] r ≡ r
put-nil (got s t) = refl
put-nil bad = refl
put-nil spent = refl

-- The text of a string, without its opening quote, is read back whole.
pub cadena-escapar_bytes : (s t : Bytes) → cadena (escapar_bytes s ++ b'"' ∷ t) ≡ got s t
unfolding escapar_bytes
cadena-escapar_bytes [] t = unfold cadena camino_rapido in refl
cadena-escapar_bytes (c ∷ s) t = elim (Bool-cases (sucio c)) [
  | inl e ↦
      let more = escapar_bytes s ++ b'"' ∷ t in
      let text : Bytes = escape_de c ++ more in
      let whole = cadena_desde-escapar (suc (length text)) (c ∷ s) t (enough c s t e) in
      rw
        (
          e,
          append_assoc (escape_de c) (escapar_bytes s) (b'"' ∷ t),
          cadena-escape_de c more,
          put-nil,
        )
        (rw (e, append_assoc (escape_de c) (escapar_bytes s) (b'"' ∷ t)) at whole)
  | inr e ↦ rw (e, cadena-clean c (escapar_bytes s ++ b'"' ∷ t) e, cadena-escapar_bytes s t)
]
  where
    enough :
        (c : ℕ) (s t : Bytes)
        → sucio c ≡ true
        → length (c ∷ s) < suc (length (escape_de c ++ (escapar_bytes s ++ b'"' ∷ t)))
    enough c s t e =
        let (tail, h) = escape_de-head c in
        omega (
          arith,
          length-append (escape_de c) (escapar_bytes s ++ b'"' ∷ t),
          length-append (escapar_bytes s) (b'"' ∷ t),
          length-escapar s,
          ap length h,
        )
