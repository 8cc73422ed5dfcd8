-- ===== src/Json/Text.antt =====
-- The parser of src/odio/json_parse.cpp: outcomes, space, literals and strings. The position in the
-- text is the text that is left.
use Prim.Native.Nat.{bit_and, bit_or}
use osodio.Prelude.{
  Bytes, ℕ, zero, suc, ◌+◌, ◌-◌, ◌*◌, ◌/◌, ◌%◌, ◌^◌, Bool, true, false, ◌&&◌, ◌||◌, Option, none,
  some, [], ◌∷◌, ◌++◌, leb, ltb, ◌==◌, if◌then◌else◌, length,
}

-- A result with the text behind it, a refusal, or no rounds left for a loop.
pub data Parsed {ℓ} (A : Type ℓ) : Type ℓ where
  got : A → Bytes → Parsed A
  bad : Parsed A
  spent : Parsed A

abbrev pub after {ℓ κ} : {A : Type ℓ} {B : Type κ} → Parsed A → (A → Bytes → Parsed B) → Parsed B
after (got a t) f = f a t
after bad f = bad
after spent f = spent

abbrev pub is_space : ℕ → Bool
is_space c = c == b' ' || c == 0x09 || c == 0x0A || c == 0x0D

unfoldable pub espacios : Bytes → Bytes
espacios [] = []
espacios (c ∷ t) = let rest = espacios t in if is_space c then rest else c ∷ t

-- The text behind a literal, if it starts with it.
unfoldable pub literal : Bytes → Bytes → Option Bytes
literal [] t = some t
literal (l ∷ lit) [] = none
literal (l ∷ lit) (c ∷ t) = if c == l then literal lit t else none

-- The value of a hexadecimal digit.
abbrev pub hex_value : ℕ → Option ℕ
hex_value c =
    if leb b'0' c && leb c b'9'
    then some (c - b'0')
    else if leb b'a' c && leb c b'f'
    then some (c - b'a' + 10)
    else if leb b'A' c && leb c b'F'
    then some (c - b'A' + 10)
    else none

-- `cp <<= 4; cp |= ...` for each of the digits that are left.
unfoldable pub hex_from : ℕ → ℕ → Bytes → Option (ℕ × Bytes)
hex_from zero cp t = some (cp, t)
hex_from (suc k) cp [] = none
hex_from (suc k) cp (c ∷ t) = elim (hex_value c) [
  | none ↦ none
  | some d ↦ hex_from k (bit_or (cp * 16 % 2 ^ 32) d) t
]

abbrev pub hex4 : Bytes → Option (ℕ × Bytes)
hex4 t = hex_from 4 0 t

unfoldable pub utf8 : ℕ → Bytes
utf8 cp =
    if ltb cp 0x80
    then cp ∷ []
    else if ltb cp 0x800
    then bit_or 0xC0 (cp / 2 ^ 6) ∷ bit_or 0x80 (bit_and cp 0x3F) ∷ []
    else if ltb cp 0x10000
    then bit_or 0xE0 (cp / 2 ^ 12)
      ∷ bit_or 0x80 (bit_and (cp / 2 ^ 6) 0x3F)
      ∷ bit_or 0x80 (bit_and cp 0x3F)
      ∷ []
    else bit_or 0xF0 (cp / 2 ^ 18)
      ∷ bit_or 0x80 (bit_and (cp / 2 ^ 12) 0x3F)
      ∷ bit_or 0x80 (bit_and (cp / 2 ^ 6) 0x3F)
      ∷ bit_or 0x80 (bit_and cp 0x3F)
      ∷ []

-- One round of the loop over a string: its end, a refusal, or bytes for the output.
pub data Trozo : Type 0 where
  fin : Bytes → Trozo
  mal : Trozo
  sigue : Bytes → Bytes → Trozo

-- The low surrogate behind a high one.
abbrev bajo : ℕ → Option (ℕ × Bytes) → Trozo
bajo alto none = mal
bajo alto (some (low, t)) =
    if ltb low 0xDC00 || ltb 0xDFFF low
    then mal
    else sigue (utf8 (0x10000 + (alto - 0xD800) * 2 ^ 10 + (low - 0xDC00))) t

abbrev barra_u : ℕ → Bytes → Trozo
barra_u alto (c ∷ d ∷ t) = if c == 0x5C && d == b'u' then bajo alto (hex4 t) else mal
barra_u alto _ = mal

abbrev unicode : Option (ℕ × Bytes) → Trozo
unicode none = mal
unicode (some (cp, t)) =
    if leb 0xD800 cp && leb cp 0xDBFF
    then barra_u cp t
    else if leb 0xDC00 cp && leb cp 0xDFFF
    then mal
    else sigue (utf8 cp) t

-- The `switch` over the byte behind a backslash.
unfoldable pub escape : Bytes → Trozo
escape [] = mal
escape (e ∷ t) =
    if e == b'"' || e == 0x5C || e == b'/'
    then sigue (e ∷ []) t
    else if e == b'b'
    then sigue (0x08 ∷ []) t
    else if e == b'f'
    then sigue (0x0C ∷ []) t
    else if e == b'n'
    then sigue (0x0A ∷ []) t
    else if e == b'r'
    then sigue (0x0D ∷ []) t
    else if e == b't'
    then sigue (0x09 ∷ []) t
    else if e == b'u'
    then unicode (hex4 t)
    else mal

unfoldable pub trozo : Bytes → Trozo
trozo [] = mal
trozo (c ∷ t) =
    if c == b'"'
    then fin t
    else if ltb c 0x20
    then mal
    else if c == 0x5C
    then escape t
    else sigue (c ∷ []) t

abbrev pub put : Bytes → Parsed Bytes → Parsed Bytes
put out (got s t) = got (out ++ s) t
put out bad = bad
put out spent = spent

abbrev pub continua : Trozo → (Bytes → Parsed Bytes) → Parsed Bytes
continua (fin t) loop = got [] t
continua mal loop = bad
continua (sigue out t) loop = put out (loop t)

-- The loop from the first escape on, over the rounds that are left.
unfoldable pub cadena_desde : ℕ → Bytes → Parsed Bytes
cadena_desde zero t = spent
cadena_desde (suc rounds) t = continua (trozo t) (cadena_desde rounds)

-- The first loop: up to a quote or a backslash, and `none` at a control character.
unfoldable pub camino_rapido : Bytes → Option (Bytes × Bytes)
camino_rapido [] = some ([], [])
camino_rapido (c ∷ t) = elim (c == b'"' || c == 0x5C) [
  | true ↦ some ([], c ∷ t)
  | false ↦ elim (ltb c 0x20) [
    | true ↦ none
    | false ↦ elim (camino_rapido t) [ none ↦ none | some p ↦ some (c ∷ p.0, p.1) ]
  ]
]

abbrev pub tras_rapido : Option (Bytes × Bytes) → Parsed Bytes
tras_rapido none = bad
tras_rapido (some (s, [])) = bad
tras_rapido (some (s, c ∷ t)) =
    if c == b'"' then got s t else put s (cadena_desde (suc (length (c ∷ t))) (c ∷ t))

-- `cadena`, behind the opening quote.
unfoldable pub cadena : Bytes → Parsed Bytes
cadena t = tras_rapido (camino_rapido t)
