-- ===== src/Value/Utf8.antt =====
-- UTF-8 of src/odio/value.cpp: the length of a sequence, validation and repair. A text is read from
-- a position on, and the bytes of a sequence that was measured are counted off.
pub mod Valid
pub mod Standard
pub mod Lengths
pub mod Repair
use Prim.Native.Nat.{bit_and}
use osodio.Prelude.{
  Bytes, IsByte, ℕ, zero, suc, ◌+◌, ◌-◌, ◌≤◌, ◌<◌, ◌≡◌, refl, Bool, true, false, not, ◌&&◌, ◌||◌,
  List, [], ◌∷◌, ◌++◌, length, take, All, leb, ltb, ◌==◌, if◌then◌else◌, arith, Bool-cases, inl,
  inr,
}
use osodio.Value.Swar.{word, bloque_ascii, bloque_ascii-lt}

-- `cont(k)`, at the bytes from the k-th on.
abbrev pub cont : Bytes → Bool
cont [] = false
cont (c ∷ s) = bit_and c 0xC0 == 0x80

abbrev pub rest_of : Bytes → Bytes
rest_of [] = []
rest_of (c ∷ s) = s

abbrev pub first_of_bytes : Bytes → ℕ
first_of_bytes [] = 0
first_of_bytes (c ∷ s) = c

-- The length of the sequence that starts with `c`, or 0; `s` are the bytes behind it.
unfoldable pub largo_utf8 : ℕ → Bytes → ℕ
largo_utf8 c s =
    if ltb c 0x80
    then 1
    else if ltb c 0xC2
    then 0
    else if ltb c 0xE0
    then (if cont s then 2 else 0)
    else if ltb c 0xF0
    then (if not (cont s) || not (cont (rest_of s))
        then 0
        else if c == 0xE0 && ltb (first_of_bytes s) 0xA0
        then 0
        else if c == 0xED && leb 0xA0 (first_of_bytes s)
        then 0
        else 3)
    else if ltb c 0xF5
    then (if not (cont s) || not (cont (rest_of s)) || not (cont (rest_of (rest_of s)))
        then 0
        else if c == 0xF0 && ltb (first_of_bytes s) 0x90
        then 0
        else if c == 0xF4 && leb 0x90 (first_of_bytes s)
        then 0
        else 4)
    else 0

-- `i + 8 <= n`
abbrev pub has_eight : Bytes → Bool
has_eight s = leb 8 (length s)

-- One round of the loop of `utf8_valido` at a byte that no sequence covers: the count of bytes to
-- pass over, or 0 to stop.
abbrev avance : ℕ → Bytes → ℕ
avance c s =
    if has_eight (c ∷ s) && bloque_ascii (word (take 8 (c ∷ s)))
    then 8
    else if ltb c 0x80
    then 1
    else largo_utf8 c s

-- The loop of `utf8_valido`; the first argument counts the bytes that are still to be passed over.
recorrer : ℕ → Bytes → Bool
recorrer skip [] = true
recorrer (suc skip) (c ∷ s) = recorrer skip s
recorrer zero (c ∷ s) = elim (avance c s) [ zero ↦ false | suc skip ↦ recorrer skip s ]

unfoldable pub utf8_valido : Bytes → Bool
unfolding recorrer
utf8_valido s = recorrer 0 s

-- The loop of `sanear_utf8`: the bytes of a sequence are copied, and any other byte becomes U+FFFD.
unfoldable pub sanear_desde : ℕ → Bytes → Bytes
sanear_desde skip [] = []
sanear_desde (suc skip) (c ∷ s) = c ∷ sanear_desde skip s
sanear_desde zero (c ∷ s) = elim (largo_utf8 c s) [
  | zero ↦ 0xEF ∷ 0xBF ∷ 0xBD ∷ sanear_desde 0 s
  | suc skip ↦ c ∷ sanear_desde skip s
]

unfoldable pub sanear_utf8 : Bytes → Bytes
unfolding sanear_desde
sanear_utf8 s = sanear_desde 0 s

-- The reference: the text is a row of sequences.
unfoldable pub secuencias : ℕ → Bytes → Bool
secuencias skip [] = true
secuencias (suc skip) (c ∷ s) = secuencias skip s
secuencias zero (c ∷ s) = elim (largo_utf8 c s) [ zero ↦ false | suc skip ↦ secuencias skip s ]
