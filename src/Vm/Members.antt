-- ===== src/Vm/Members.antt =====
-- The instructions of src/odio/vm.cpp that make, read and write lists and dictionaries.
use osodio.Prelude.{
  Bytes, bytes, ℕ, ℤ, pos, negsuc, List, ◌∷◌, ◌++◌, Option, none, some, ltb, if◌then◌else◌, length,
  map,
}
use osodio.StringMap.{lookup, insert}
use osodio.Value.Decimal.{to_string}
use osodio.Vm.Boxes.{
  BoxedValue, null, integer, str, list, dict, Fields, Boxes, list_at, dict_at, set_at, new_list,
  new_dict, boxed_type_name,
}
use osodio.Vm.Code.{get_elem?}
use osodio.Vm.Arithmetic.{Answer, value, refused}

abbrev boxed : BoxedValue × Boxes → Answer
boxed (v, h) = value v h

abbrev out_of_range : ℤ → ℕ → Answer
out_of_range i size = refused (
    bytes "indice fuera de rango: "
    ++ to_string i
    ++ bytes " (tamano "
    ++ to_string (pos size)
    ++ bytes ")")

abbrev or_null : Option BoxedValue → BoxedValue
or_null none = null
or_null (some v) = v

-- A write into a box that exists, which all its holders see.
abbrev pub set_list : ℕ → List BoxedValue → Boxes → Boxes
set_list r vs h = record h { lists = set_at r vs h.lists }

abbrev pub set_dict : ℕ → Fields → Boxes → Boxes
set_dict r es h = record h { dicts = set_at r es h.dicts }

unfoldable pub make_list : List BoxedValue → Boxes → Answer
make_list vs h = boxed (new_list vs h)

-- Keys and values by turns; the first key that is not a string is an error.
unfoldable pub make_dict : List BoxedValue → Fields → Boxes → Answer
make_dict (str k ∷ v ∷ rest) d h = make_dict rest (insert k v d) h
make_dict (k ∷ v ∷ rest) d h =
    refused (bytes "la clave de un Dict tiene que ser string, no " ++ boxed_type_name k)
make_dict _ d h = boxed (new_dict d h)

unfoldable pub get_in_list : List BoxedValue → ℤ → Boxes → Answer
get_in_list vs (pos i) h = elim (get_elem? vs i) [
  | none ↦ out_of_range (pos i) (length vs)
  | some v ↦ value v h
]
get_in_list vs (negsuc i) h = out_of_range (negsuc i) (length vs)

unfoldable pub get_index : BoxedValue → BoxedValue → Boxes → Answer
get_index (list r) (integer i) h = get_in_list (list_at h r) i h
get_index (list r) idx h = refused (bytes "el indice de una List tiene que ser int")
get_index (dict r) (str k) h = value (or_null (lookup k (dict_at h r))) h
get_index (dict r) idx h = refused (bytes "la clave de un Dict tiene que ser string")
get_index obj idx h = refused (bytes "no se puede indexar " ++ boxed_type_name obj)

unfoldable pub set_in_list : ℕ → List BoxedValue → ℤ → BoxedValue → Boxes → Answer
set_in_list r vs (pos i) v h =
    if ltb i (length vs)
    then value v (set_list r (set_at i v vs) h)
    else out_of_range (pos i) (length vs)
set_in_list r vs (negsuc i) v h = out_of_range (negsuc i) (length vs)

unfoldable pub set_index : BoxedValue → BoxedValue → BoxedValue → Boxes → Answer
set_index (list r) (integer i) v h = set_in_list r (list_at h r) i v h
set_index (list r) idx v h = refused (bytes "el indice de una List tiene que ser int")
set_index (dict r) (str k) v h = value v (set_dict r (insert k v (dict_at h r)) h)
set_index (dict r) idx v h = refused (bytes "la clave de un Dict tiene que ser string")
set_index obj idx v h = refused (bytes "no se puede indexar " ++ boxed_type_name obj)

-- What a `for` walks: a list itself, or the keys of a dictionary.
unfoldable pub iter_list : BoxedValue → Boxes → Answer
iter_list (list r) h = value (list r) h
iter_list (dict r) h = boxed (new_list (map (λ (k, v). str k) (dict_at h r)) h)
iter_list v h = refused (bytes "no se puede recorrer " ++ boxed_type_name v ++ bytes " con 'for'")

unfoldable pub get_member : Bytes → BoxedValue → Boxes → Answer
get_member name (dict r) h = value (or_null (lookup name (dict_at h r))) h
get_member name obj h =
    refused (
      bytes "'" ++ name ++ bytes "' sobre " ++ boxed_type_name obj ++ bytes ", que no tiene campos")

unfoldable pub set_member : Bytes → BoxedValue → BoxedValue → Boxes → Answer
set_member name (dict r) v h = value v (set_dict r (insert name v (dict_at h r)) h)
set_member name obj v h =
    refused (bytes "no se puede asignar '" ++ name ++ bytes "' sobre " ++ boxed_type_name obj)
