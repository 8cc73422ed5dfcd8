-- ===== src/Vm/Arithmetic.antt =====
-- The operators of src/odio/vm.cpp on values, with their errors, and `Value::equals` of
-- src/odio/value.cpp.
use osodio.Prelude.{
  Bytes, bytes, ℕ, zero, suc, ℤ, pos, ltb_ℤ, eq_ℤ, Bool, true, false, not, ◌||◌, List, [], ◌∷◌,
  ◌++◌, Option, none, some, ltb, ◌==◌, bytes_eq, if◌then◌else◌, length,
}
use osodio.StringMap.{lookup}
use osodio.Vm.Words.{
  add_long, sub_long, mul_long, quotient, remainder, traps, FloatOps, eq_double, lt_double,
  neg_double,
}
use osodio.Vm.Code.{Op, sub, div, modulo, lt, le, gt}
use osodio.Vm.Boxes.{
  BoxedValue, null, boolean, integer, real, str, list, dict, Fields, Boxes, list_at, dict_at,
  new_list, boxed_type_name,
}

-- What an operator gives: a value, perhaps in a new box; a message; or `trap`, for an overflow of a
-- `long long`, which C++ leaves undefined.
pub data Answer : Type 0 where
  value : BoxedValue → Boxes → Answer
  refused : Bytes → Answer
  trap : Answer

-- The answer of an arithmetic on `long long`.
abbrev pub long_answer : Option ℤ → Boxes → Answer
long_answer o h = elim o [ none ↦ trap | some z ↦ value (integer z) h ]

-- The test of an order by its instruction, from the outcomes of `<`, `==` and `>`.
abbrev order_of : Op → (less equal more : Bool) → Bool
order_of lt less equal more = less
order_of le less equal more = less || equal
order_of gt less equal more = more
order_of _ less equal more = more || equal

-- `std::string::compare`, by unsigned bytes.
unfoldable pub bytes_lt : Bytes → Bytes → Bool
bytes_lt [] [] = false
bytes_lt [] (d ∷ t) = true
bytes_lt (c ∷ s) [] = false
bytes_lt (c ∷ s) (d ∷ t) = let rest = bytes_lt s t in if c == d then rest else ltb c d

abbrev order_strings : Op → Bytes → Bytes → Bool
order_strings o s t = order_of o (bytes_lt s t) (bytes_eq s t) (bytes_lt t s)

abbrev order_doubles : Op → ℕ → ℕ → Bool
order_doubles o x y = order_of o (lt_double x y) (eq_double x y) (lt_double y x)

unfoldable pub order_longs : Op → ℤ → ℤ → Bool
order_longs o x y = order_of o (ltb_ℤ x y) (eq_ℤ x y) (ltb_ℤ y x)

module _ (fl : FloatOps) where
  -- `as_float`, of a number.
  abbrev pub as_float : BoxedValue → Option ℕ
  as_float (integer i) = some (fl.of_long i)
  as_float (real d) = some d
  as_float _ = none

  abbrev both : BoxedValue → BoxedValue → Option (ℕ × ℕ)
  both a b = elim (as_float a) [
    | none ↦ none
    | some x ↦ elim (as_float b) [ none ↦ none | some y ↦ some (x, y) ]
  ]

  -- `compare`: between numbers, or between strings; `none` where `ok` is left false.
  unfoldable pub compare : Op → BoxedValue → BoxedValue → Option Bool
  compare o (integer x) (integer y) = some (order_longs o x y)
  compare o (str s) (str t) = some (order_strings o s t)
  compare o a b = elim (both a b) [ none ↦ none | some (x, y) ↦ some (order_doubles o x y) ]

  abbrev cannot_add : BoxedValue → BoxedValue → Bytes
  cannot_add a b =
      bytes "no se puede sumar " ++ boxed_type_name a ++ bytes " y " ++ boxed_type_name b

  abbrev is_str : BoxedValue → Bool
  is_str (str s) = true
  is_str _ = false

  abbrev boxed : BoxedValue × Boxes → Answer
  boxed (v, h) = value v h

  -- `+`: strings are joined, numbers added, lists joined into a new one; nothing else is mixed.
  unfoldable pub add_values : BoxedValue → BoxedValue → Boxes → Answer
  add_values (integer x) (integer y) h = long_answer (add_long x y) h
  add_values (str s) (str t) h = value (str (s ++ t)) h
  add_values (list r) (list q) h = boxed (new_list (list_at h r ++ list_at h q) h)
  add_values a b h =
      if is_str a || is_str b
      then refused (cannot_add a b ++ bytes "; para concatenar usa str(): \"...\" + str(x)")
      else elim (both a b) [
        | none ↦ refused (cannot_add a b)
        | some (x, y) ↦ value (real (fl.add_double x y)) h
      ]

  unfoldable pub divide_longs : ℤ → ℤ → Boxes → Answer
  divide_longs x y h =
      if eq_double (fl.of_long y) 0
      then refused (bytes "division por cero")
      else if traps x y
      then trap
      else if eq_ℤ (remainder x y) (pos 0)
      then value (integer (quotient x y)) h
      else value (real (fl.div_double (fl.of_long x) (fl.of_long y))) h

  unfoldable pub modulo_longs : ℤ → ℤ → Boxes → Answer
  modulo_longs x y h =
      if eq_ℤ y (pos 0)
      then refused (bytes "modulo por cero")
      else if traps x y
      then trap
      else value (integer (remainder x y)) h

  -- Numbers that are not both integers.
  unfoldable pub arith_doubles : Op → ℕ → ℕ → Boxes → Answer
  arith_doubles modulo x y h = refused (bytes "'%' solo aplica a enteros")
  arith_doubles div x y h =
      if eq_double y 0
      then refused (bytes "division por cero")
      else value (real (fl.div_double x y)) h
  arith_doubles sub x y h = value (real (fl.sub_double x y)) h
  arith_doubles _ x y h = value (real (fl.mul_double x y)) h

  unfoldable pub arith_longs : Op → ℤ → ℤ → Boxes → Answer
  arith_longs modulo x y h = modulo_longs x y h
  arith_longs div x y h = divide_longs x y h
  arith_longs sub x y h = long_answer (sub_long x y) h
  arith_longs _ x y h = long_answer (mul_long x y) h

  -- `-`, `*`, `/` and `%`, which is the instruction `og`.
  unfoldable pub arith_values : Op → BoxedValue → BoxedValue → Boxes → Answer
  arith_values og (integer x) (integer y) h = arith_longs og x y h
  arith_values og a b h = elim (both a b) [
    | none ↦ refused (
        bytes "operacion aritmetica entre "
        ++ boxed_type_name a
        ++ bytes " y "
        ++ boxed_type_name b)
    | some (x, y) ↦ arith_doubles og x y h
  ]

  unfoldable pub order_values : Op → BoxedValue → BoxedValue → Boxes → Answer
  order_values o a b h = elim (compare o a b) [
    | none ↦
        refused
          (bytes "no se pueden comparar " ++ boxed_type_name a ++ bytes " y " ++ boxed_type_name b)
    | some r ↦ value (boolean r) h
  ]

  unfoldable pub negate : BoxedValue → Boxes → Answer
  negate (integer i) h = long_answer (sub_long (pos 0) i) h
  negate (real d) h = value (real (neg_double d)) h
  negate a h = refused (bytes "no se puede negar " ++ boxed_type_name a)

  -- Two lists member by member, until two differ.
  unfoldable pub all_equal :
      (BoxedValue → BoxedValue → Option Bool) → List BoxedValue → List BoxedValue → Option Bool
  all_equal eq (v ∷ vs) (w ∷ ws) =
      let rest = all_equal eq vs ws in
      elim (eq v w) [ none ↦ none | some e ↦ if e then rest else some false ]
  all_equal eq _ _ = some true

  -- Every field of the one has an equal one in the other.
  unfoldable pub fields_equal :
      (BoxedValue → BoxedValue → Option Bool) → Fields → Fields → Option Bool
  fields_equal eq [] es = some true
  fields_equal eq ((k, v) ∷ fs) es =
      let rest = fields_equal eq fs es in
      elim (lookup k es) [
        | none ↦ some false
        | some w ↦ elim (eq v w) [ none ↦ none | some e ↦ if e then rest else some false ]
      ]

  -- `equals`; `none` when it calls itself deeper than `depth`, as on a list that holds itself.
  unfoldable pub equals : (depth : ℕ) → Boxes → BoxedValue → BoxedValue → Option Bool
  equals zero h a b = none
  equals (suc depth) h null null = some true
  equals (suc depth) h (boolean a) (boolean b) = some (if a then b else not b)
  equals (suc depth) h (integer x) (integer y) = some (eq_ℤ x y)
  equals (suc depth) h (str s) (str t) = some (bytes_eq s t)
  equals (suc depth) h (list r) (list q) =
      let deeper = all_equal (equals depth h) (list_at h r) (list_at h q) in
      if length (list_at h r) == length (list_at h q) then deeper else some false
  equals (suc depth) h (dict r) (dict q) =
      let deeper = fields_equal (equals depth h) (dict_at h r) (dict_at h q) in
      if length (dict_at h r) == length (dict_at h q) then deeper else some false
  equals (suc depth) h a b = elim (both a b) [
    | none ↦ some false
    | some (x, y) ↦ some (eq_double x y)
  ]
