-- ===== src/Vm/Boxes.antt =====
-- `Value` of include/odio/value.hpp as the machine holds it: a list or a dictionary is the number of
-- its box, and all who hold the number share the box. A string's box never changes, so the string
-- stands for it. The counting of holders, which frees a box, is left out.
use osodio.Prelude.{
  Bytes, bytes, ℕ, zero, suc, ℤ, pos, negsuc, Bool, true, false, not, List, [], ◌∷◌, ◌++◌, ◌%◌, ◌^◌,
  ◌==◌, length, get_or,
}

pub data BoxedValue : Type 0 where
  null : BoxedValue
  boolean : Bool → BoxedValue
  integer : ℤ → BoxedValue
  real : (bits : ℕ) → BoxedValue
  str : Bytes → BoxedValue
  list : (box : ℕ) → BoxedValue
  dict : (box : ℕ) → BoxedValue

abbrev pub Fields : Type 0
Fields = List (Bytes × BoxedValue)

-- The boxes of the lists and those of the dictionaries.
pub record Boxes : Type 0 where
  pub lists : List (List BoxedValue)
  pub dicts : List Fields

-- `as_list` and `as_dict`
abbrev pub list_at : Boxes → ℕ → List BoxedValue
list_at h box = get_or h.lists box []

abbrev pub dict_at : Boxes → ℕ → Fields
dict_at h box = get_or h.dicts box []

unfoldable pub set_at {ℓ} : {A : Type ℓ} → ℕ → A → List A → List A
set_at i a [] = []
set_at zero a (x ∷ xs) = a ∷ xs
set_at (suc i) a (x ∷ xs) = x ∷ set_at i a xs

-- `Value::list` and `Value::dict`: a new box.
abbrev pub new_list : List BoxedValue → Boxes → BoxedValue × Boxes
new_list vs h = (list (length h.lists), record h { lists = h.lists ++ vs ∷ [] })

abbrev pub new_dict : Fields → Boxes → BoxedValue × Boxes
new_dict es h = (dict (length h.dicts), record h { dicts = h.dicts ++ es ∷ [] })

unfoldable pub boxed_type_name : BoxedValue → Bytes
boxed_type_name null = bytes "null"
boxed_type_name (boolean b) = bytes "bool"
boxed_type_name (integer i) = bytes "int"
boxed_type_name (real d) = bytes "float"
boxed_type_name (str s) = bytes "string"
boxed_type_name (list r) = bytes "List"
boxed_type_name (dict r) = bytes "Dict"

abbrev nonempty {ℓ} : {A : Type ℓ} → List A → Bool
nonempty [] = false
nonempty (x ∷ xs) = true

unfoldable pub boxed_truthy : Boxes → BoxedValue → Bool
boxed_truthy h null = false
boxed_truthy h (boolean b) = b
boxed_truthy h (integer (pos n)) = not (n == 0)
boxed_truthy h (integer (negsuc n)) = true
boxed_truthy h (real d) = not (d % 2 ^ 63 == 0)
boxed_truthy h (str s) = nonempty s
boxed_truthy h (list r) = nonempty (list_at h r)
boxed_truthy h (dict r) = nonempty (dict_at h r)
