-- ===== src/Json/NumberTrip.antt =====
-- `numero` of src/odio/json_parse.cpp on what `std::to_string` writes.
use osodio.Prelude.{
  Bytes, ℕ, zero, suc, ◌≡◌, refl, ℤ, pos, negsuc, true, false, ◌||◌, some, [], ◌∷◌, ◌++◌, ◌==◌, All,
  arith, ◌∙◌,
}
use osodio.Value.{integer}
use osodio.Value.Decimal.{
  digito, IsDigit, digits_of, to_string, InRange, digits_of-All, digits_of-head, to_long-digits_of,
  to_long-digits_of_neg,
}
use osodio.Json.Floats.{Floats}
use osodio.Json.Text.{got}
use osodio.Json.Number.{
  span_digits, parte_entera, fraccion, exponente, signo, Numero, leer, valor_de, numero,
}

-- The text behind a number does not go on with it.
abbrev pub Stops : Bytes → Type 0
Stops [] = Unit
Stops (c ∷ t) = (digito c || c == b'.' || c == b'e' || c == b'E') ≡ false

span_digits-append :
    (ds rest : Bytes) → All IsDigit ds → Stops rest → span_digits (ds ++ rest) ≡ (ds, rest)
unfolding span_digits
span_digits-append [] [] h k = refl
span_digits-append [] (c ∷ t) h k = ground arith
span_digits-append (d ∷ ds) rest (hd, h) k = rw (hd, span_digits-append ds rest h k)

parte_entera-digits_of :
    (n : ℕ) (rest : Bytes)
    → Stops rest
    → parte_entera (digits_of n n [] ++ rest) ≡ some (digits_of n n [], rest)
unfolding parte_entera
parte_entera-digits_of zero rest k = unfold digits_of in refl
parte_entera-digits_of (suc n) rest k =
    let (c, more, e, lo, hi) = digits_of-head (suc n) (suc n) [] (omega arith) (omega arith) in
    let digits = rw e at (digits_of-All (suc n) (suc n) [] tt) in
    rw e (ground (arith, span_digits-append (c ∷ more) rest digits k))

signo-digits_of :
    (n : ℕ) (rest : Bytes) → signo (digits_of n n [] ++ rest) ≡ (false, digits_of n n [] ++ rest)
signo-digits_of zero rest = unfold digits_of in refl
signo-digits_of (suc n) rest =
    let (c, more, e, lo, hi) = digits_of-head (suc n) (suc n) [] (omega arith) (omega arith) in
    rw e (ground arith)

fraccion-Stops : (rest : Bytes) → Stops rest → fraccion rest ≡ some ([], rest)
unfolding fraccion
fraccion-Stops [] k = refl
fraccion-Stops (c ∷ t) k = ground arith

exponente-Stops : (rest : Bytes) → Stops rest → exponente rest ≡ some ([], rest)
unfolding exponente
exponente-Stops [] k = refl
exponente-Stops (c ∷ t) k = ground arith

leer-digits_of :
    (n : ℕ) (rest : Bytes)
    → Stops rest
    → leer (digits_of n n [] ++ rest)
      ≡ some (record {
        negativo = false;
        entera = digits_of n n [];
        fraccionaria = [];
        exp = [];
        resto = rest;
      })
unfolding leer
leer-digits_of n rest k = rw (
  signo-digits_of,
  parte_entera-digits_of n rest k,
  fraccion-Stops rest k,
  exponente-Stops rest k,
)

leer-digits_of_neg :
    (n : ℕ) (rest : Bytes)
    → Stops rest
    → leer (b'-' ∷ (digits_of n n [] ++ rest))
      ≡ some (record {
        negativo = true;
        entera = digits_of n n [];
        fraccionaria = [];
        exp = [];
        resto = rest;
      })
unfolding leer
leer-digits_of_neg n rest k =
    rw (parte_entera-digits_of n rest k, fraccion-Stops rest k, exponente-Stops rest k)

numero-leer : (fl : Floats) (t : Bytes) (n : Numero) → leer t ≡ some n → numero fl t ≡ valor_de fl n
unfolding numero
numero-leer fl t n e = rw (e, numero)

-- An integer in the range of a `long long` is read back.
pub numero-to_string :
    (fl : Floats) (i : ℤ) (rest : Bytes)
    → InRange i
    → Stops rest
    → numero fl (to_string i ++ rest) ≡ got (integer i) rest
unfolding to_string
numero-to_string fl (pos n) rest h k =
    numero-leer fl (digits_of n n [] ++ rest) _ (leer-digits_of n rest k)
    ∙ ground (arith, to_long-digits_of n h)
numero-to_string fl (negsuc n) rest h k =
    numero-leer fl (b'-' ∷ (digits_of (suc n) (suc n) [] ++ rest)) _
      (leer-digits_of_neg (suc n) rest k)
    ∙ ground (arith, to_long-digits_of_neg n h)
