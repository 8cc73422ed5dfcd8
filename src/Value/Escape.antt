-- ===== src/Value/Escape.antt =====
-- JSON strings as src/odio/value.cpp writes them.
pub mod Reference
use Prim.Native.Nat.{bit_and}
use osodio.Prelude.{
  Bytes, ℕ, zero, suc, ◌+◌, ◌-◌, ◌/◌, ◌%◌, Bool, true, false, not, ◌&&◌, ◌||◌, List, [], ◌∷◌, ◌++◌,
  take, ltb, ◌==◌, if◌then◌else◌,
}
use osodio.Value.Swar.{word, bloque_sucio}
use osodio.Value.Utf8.{has_eight, utf8_valido, sanear_utf8}

-- `c < 0x20 || c == '"' || c == '\\'`
abbrev pub sucio : ℕ → Bool
sucio c = ltb c 0x20 || c == b'"' || c == 0x5C

-- A digit of `%04x`.
abbrev pub hex_digit : ℕ → ℕ
hex_digit d = if ltb d 10 then b'0' + d else b'a' + (d - 10)

-- The escape of a byte, by the `switch`.
unfoldable pub escape_de : ℕ → Bytes
escape_de c =
    if c == b'"'
    then 0x5C ∷ b'"' ∷ []
    else if c == 0x5C
    then 0x5C ∷ 0x5C ∷ []
    else if c == 0x08
    then 0x5C ∷ b'b' ∷ []
    else if c == 0x0C
    then 0x5C ∷ b'f' ∷ []
    else if c == 0x0A
    then 0x5C ∷ b'n' ∷ []
    else if c == 0x0D
    then 0x5C ∷ b'r' ∷ []
    else if c == 0x09
    then 0x5C ∷ b't' ∷ []
    else 0x5C ∷ b'u' ∷ b'0' ∷ b'0' ∷ hex_digit (c / 16 % 16) ∷ hex_digit (c % 16) ∷ []

-- What the loop of `escapar_valido` does next: pass over the bytes of a clean block, try the next
-- block, or look for the next byte to escape.
pub data Fase : Type 0 where
  saltar : ℕ → Fase
  buscar : Fase

-- At a byte: the text that goes out, and the next phase.
abbrev byte_a_byte : ℕ → Bytes × Fase
byte_a_byte c = if sucio c then (escape_de c, saltar 0) else (c ∷ [], buscar)

unfoldable pub paso : Fase → ℕ → Bytes → Bytes × Fase
paso (saltar (suc n)) c s = (c ∷ [], saltar n)
paso (saltar zero) c s =
    if has_eight (c ∷ s) && not (bloque_sucio (word (take 8 (c ∷ s))))
    then (c ∷ [], saltar 7)
    else byte_a_byte c
paso buscar c s = byte_a_byte c

unfoldable pub escapar_desde : Fase → Bytes → Bytes
escapar_desde fase [] = []
escapar_desde fase (c ∷ s) = let (out, next) = paso fase c s in out ++ escapar_desde next s

unfoldable pub escapar_valido : Bytes → Bytes
escapar_valido s = b'"' ∷ (escapar_desde (saltar 0) s ++ b'"' ∷ [])

unfoldable pub escapar : Bytes → Bytes
escapar s = if utf8_valido s then escapar_valido s else escapar_valido (sanear_utf8 s)
