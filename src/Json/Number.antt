-- ===== src/Json/Number.antt =====
-- `numero` of src/odio/json_parse.cpp.
use osodio.Prelude.{
  Bytes, ℕ, Bool, true, false, ◌&&◌, ◌||◌, Option, none, some, [], ◌∷◌, ◌++◌, leb, ◌==◌,
  if◌then◌else◌,
}
use osodio.Value.{Value, integer, real}
use osodio.Value.Decimal.{digito, to_long}
use osodio.Json.Floats.{Floats}
use osodio.Json.Text.{Parsed, got, bad}

-- `while (i_ < t_.size() && digito(t_[i_])) ++i_;`: the digits and what is behind them.
unfoldable pub span_digits : Bytes → Bytes × Bytes
span_digits [] = ([], [])
span_digits (c ∷ t) =
    let later = span_digits t in if digito c then (c ∷ later.0, later.1) else ([], c ∷ t)

-- The part before a point: "0", or digits that do not start with 0.
unfoldable pub parte_entera : Bytes → Option (Bytes × Bytes)
parte_entera [] = none
parte_entera (c ∷ t) =
    if c == b'0'
    then some (c ∷ [], t)
    else if leb b'1' c && leb c b'9'
    then some (span_digits (c ∷ t))
    else none

-- Digits, of which there is at least one, behind the text `before`.
abbrev pub some_digits : Bytes → Bytes → Option (Bytes × Bytes)
some_digits before [] = none
some_digits before (c ∷ t) =
    if digito c then some (before ++ (span_digits (c ∷ t)).0, (span_digits (c ∷ t)).1) else none

-- The fraction, which may be missing.
unfoldable pub fraccion : Bytes → Option (Bytes × Bytes)
fraccion [] = some ([], [])
fraccion (c ∷ t) = if c == b'.' then some_digits (c ∷ []) t else some ([], c ∷ t)

abbrev pub tras_e : ℕ → Bytes → Option (Bytes × Bytes)
tras_e e [] = none
tras_e e (c ∷ t) =
    if c == b'+' || c == b'-' then some_digits (e ∷ c ∷ []) t else some_digits (e ∷ []) (c ∷ t)

-- The exponent, which may be missing.
unfoldable pub exponente : Bytes → Option (Bytes × Bytes)
exponente [] = some ([], [])
exponente (c ∷ t) = if c == b'e' || c == b'E' then tras_e c t else some ([], c ∷ t)

-- `-`, and whether it is there.
abbrev pub signo : Bytes → Bool × Bytes
signo [] = (false, [])
signo (c ∷ t) = if c == b'-' then (true, t) else (false, c ∷ t)

infixl 5 ◌>>=◌
abbrev pub ◌>>=◌ {ℓ κ} : {A : Type ℓ} {B : Type κ} → Option A → (A → Option B) → Option B
none >>= k = none
some a >>= k = k a

-- The sign, the integer part, the fraction and the exponent, and the text behind them.
pub record Numero : Type 0 where
  pub negativo : Bool
  pub entera : Bytes
  pub fraccionaria : Bytes
  pub exp : Bytes
  pub resto : Bytes

unfoldable pub leer : Bytes → Option Numero
unfolding parte_entera fraccion exponente
leer t =
    let (menos, t₁) = signo t in
    do
      (e, t₂) ← parte_entera t₁
      (f, t₃) ← fraccion t₂
      (x, t₄) ← exponente t₃
      some (record { negativo = menos; entera = e; fraccionaria = f; exp = x; resto = t₄ })

abbrev pub vacio : Bytes → Bool
vacio [] = true
vacio (_ ∷ _) = false

-- The text from `p` to `f`.
abbrev texto : Numero → Bytes
texto n = (if n.negativo then b'-' ∷ [] else []) ++ (n.entera ++ (n.fraccionaria ++ n.exp))

module _ (fl : Floats) where
  abbrev como_double : Numero → Parsed Value
  como_double n = elim (fl.from_chars (texto n)) [ none ↦ bad | some d ↦ got (real d) n.resto ]

  -- An integer in the range of a `long long`, or a double.
  abbrev pub valor_de : Numero → Parsed Value
  valor_de n =
      let entero : Parsed Value = elim (to_long n.negativo n.entera) [
        | none ↦ como_double n
        | some i ↦ got (integer i) n.resto
      ] in
      if vacio n.fraccionaria && vacio n.exp then entero else como_double n

  unfoldable pub numero : Bytes → Parsed Value
  numero t = elim (leer t) [ none ↦ bad | some n ↦ valor_de n ]
