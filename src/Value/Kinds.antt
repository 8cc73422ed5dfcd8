-- ===== src/Value/Kinds.antt =====
-- `type_name` and `truthy` of a value, of src/odio/value.cpp and include/odio/value.hpp.
use osodio.Prelude.{Bytes, bytes, ◌%◌, ◌^◌, pos, negsuc, Bool, true, false, not, [], ◌∷◌, ◌==◌}
use osodio.Value.{Value, null, boolean, integer, real, str, list, dict, nil, cons, end, entry}

unfoldable pub type_name : Value → Bytes
type_name null = bytes "null"
type_name (boolean b) = bytes "bool"
type_name (integer i) = bytes "int"
type_name (real d) = bytes "float"
type_name (str s) = bytes "string"
type_name (list vs) = bytes "List"
type_name (dict es) = bytes "Dict"

-- `null`, `false`, zero, and what is empty are false; both zeros of a `double` are.
unfoldable pub truthy : Value → Bool
truthy null = false
truthy (boolean b) = b
truthy (integer (pos n)) = not (n == 0)
truthy (integer (negsuc n)) = true
truthy (real d) = not (d % 2 ^ 63 == 0)
truthy (str []) = false
truthy (str (c ∷ s)) = true
truthy (list nil) = false
truthy (list (cons v vs)) = true
truthy (dict end) = false
truthy (dict (entry k v es)) = true
