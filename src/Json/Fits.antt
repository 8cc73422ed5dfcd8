-- ===== src/Json/Fits.antt =====
-- The values whose JSON text is read back, and the first byte of that text.
use osodio.Prelude.{
  Bytes, IsByte, bytes, ℕ, zero, suc, ◌≤◌, ◌≡◌, refl, ℤ, pos, negsuc, Bool, true, false, not, ◌||◌,
  none, [], ◌∷◌, ◌++◌, ◌==◌, All, arith, length,
}
use osodio.Value.{
  Value, null, boolean, integer, str, list, dict, Values, nil, cons, Entries, end, entry, assign,
  find,
}
use osodio.Value.Decimal.{digits_of, to_string, InRange, digits_of-head}
use osodio.Value.Utf8.{utf8_valido}
use osodio.Value.Escape.{escapar}
use osodio.Value.Escape.Reference.{escapar_bytes, escapar_valido-bytes}
use osodio.Json.Floats.{Floats}
use osodio.Json.Text.{espacios, is_space}
use osodio.Json.Write.{is_internal, write_json}

-- A text of valid UTF-8.
abbrev pub IsText : Bytes → Type 0
IsText s = All IsByte s × (utf8_valido s ≡ true)

-- No float, every integer a `long long`, every text valid UTF-8, the keys of a dictionary distinct
-- and none of them internal, and at most `left` values nested in one another. `FitsDict left d es`
-- also says that no key of `es` is in `d`.
mutual
  pub data Fits : ℕ → Value → Type 0 where
    a_null : {left : ℕ} → Fits (suc left) null
    a_boolean : {left : ℕ} → (b : Bool) → Fits (suc left) (boolean b)
    an_integer : {left : ℕ} → (i : ℤ) → InRange i → Fits (suc left) (integer i)
    a_str : {left : ℕ} → (s : Bytes) → IsText s → Fits (suc left) (str s)
    a_list : {left : ℕ} {vs : Values} → FitsList left vs → Fits (suc left) (list vs)
    a_dict : {left : ℕ} {es : Entries} → FitsDict left end es → Fits (suc left) (dict es)

  pub data FitsList : ℕ → Values → Type 0 where
    no_more : {left : ℕ} → FitsList left nil
    and_then :
        {left : ℕ} {v : Value} {vs : Values}
        → Fits left v
        → FitsList left vs
        → FitsList left (cons v vs)

  pub data FitsDict : ℕ → Entries → Entries → Type 0 where
    no_entry : {left : ℕ} {d : Entries} → FitsDict left d end
    an_entry :
        {left : ℕ} {d es : Entries} {v : Value} (k : Bytes)
        → IsText k
        → is_internal k ≡ false
        → find k d ≡ none
        → Fits left v
        → FitsDict left (assign k v d) es
        → FitsDict left d (entry k v es)

pub escapar_of-IsText : (s : Bytes) → IsText s → escapar s ≡ b'"' ∷ (escapar_bytes s ++ b'"' ∷ [])
unfolding escapar
escapar_of-IsText s (h, valid) = rw valid (escapar_valido-bytes s h)

-- A byte that can start a value: no space, and no bracket that closes.
abbrev pub starts : ℕ → Bool
starts c = not (is_space c || c == b']' || c == b'}')

abbrev pub Starts : Bytes → Type 0
Starts t = (c : ℕ) × (tail : Bytes) × (t ≡ c ∷ tail) × (starts c ≡ true)

digits-Starts : (n : ℕ) → Starts (digits_of n n [])
digits-Starts zero = unfold digits_of in (b'0', [], refl, refl)
digits-Starts (suc n) =
    let (c, more, e, lo, hi) = digits_of-head (suc n) (suc n) [] (omega arith) (omega arith) in
    (c, more, e, ground arith)

pub write_json-Starts :
    (fl : Floats) {left : ℕ} {v : Value} → Fits left v → Starts (write_json fl v)
unfolding write_json to_string
write_json-Starts fl a_null = (b'n', bytes "ull", refl, refl)
write_json-Starts fl (a_boolean true) = (b't', bytes "rue", refl, refl)
write_json-Starts fl (a_boolean false) = (b'f', bytes "alse", refl, refl)
write_json-Starts fl (an_integer (pos n) h) = digits-Starts n
write_json-Starts fl (an_integer (negsuc n) h) = (b'-', _, refl, refl)
write_json-Starts fl (a_str s h) = (b'"', _, escapar_of-IsText s h, refl)
write_json-Starts fl (a_list h) = (b'[', _, refl, refl)
write_json-Starts fl (a_dict h) = (b'{', _, refl, refl)

pub espacios-Starts : (t x : Bytes) → Starts t → espacios (t ++ x) ≡ t ++ x
unfolding espacios
espacios-Starts t x (c, tail, e, h) = rw e (ground arith)

pub length-Starts : (t : Bytes) → Starts t → 1 ≤ length t
length-Starts t (c, tail, e, h) = rw e (omega arith)
