-- ===== src/Json/Write.antt =====
-- `write_json` of src/odio/value.cpp.
use osodio.Prelude.{
  Bytes, bytes, ℕ, ◌-◌, ◌/◌, ◌%◌, ◌^◌, Bool, true, false, ◌&&◌, ◌||◌, none, some, [], ◌∷◌, ◌++◌,
  any, ltb, ◌==◌, if◌then◌else◌,
}
use osodio.Value.{
  Value, null, boolean, integer, real, str, list, dict, Values, nil, cons, Entries, end, entry,
}
use osodio.Value.Decimal.{to_string}
use osodio.Value.Escape.{escapar}
use osodio.Json.Floats.{Floats}

-- `std::isfinite`, on the bits of a double.
abbrev isfinite : ℕ → Bool
isfinite bits = ltb (bits / 2 ^ 52 % 2 ^ 11) (2 ^ 11 - 1)

-- `k.rfind("__", 0) == 0`
abbrev pub is_internal : Bytes → Bool
is_internal (c ∷ d ∷ k) = c == b'_' && d == b'_'
is_internal _ = false

module _ (fl : Floats) where
  escribir_double : ℕ → Bytes
  escribir_double d =
      if isfinite d
      then (elim (fl.to_chars d) [
        | none ↦ bytes "0"
        | some t ↦ if any (λ c. c == b'.' || c == b'e' || c == b'E') t then t else t ++ bytes ".0"
      ])
      else bytes "null"

  unfoldable mutual
    unfolding escribir_double

    pub write_json : Value → Bytes
    write_json null = bytes "null"
    write_json (boolean b) = if b then bytes "true" else bytes "false"
    write_json (integer i) = to_string i
    write_json (real d) = escribir_double d
    write_json (str s) = escapar s
    write_json (list vs) = b'[' ∷ (write_list true vs ++ b']' ∷ [])
    write_json (dict es) = b'{' ∷ (write_dict true es ++ b'}' ∷ [])

    -- The loop over a list; the flag is `primero`.
    pub write_list : Bool → Values → Bytes
    write_list primero nil = []
    write_list primero (cons v vs) =
        (if primero then [] else b',' ∷ []) ++ (write_json v ++ write_list false vs)

    -- The loop over a dictionary, which leaves internal keys out.
    pub write_dict : Bool → Entries → Bytes
    write_dict primero end = []
    write_dict primero (entry k v es) =
        let item = (if primero then [] else b',' ∷ []) ++ (escapar k ++ b':' ∷ write_json v) in
        (if is_internal k then [] else item)
        ++ write_dict (if is_internal k then primero else false) es
