-- ===== src/Vm/Code.antt =====
-- The bytecode of include/odio/bytecode.hpp.
use osodio.Prelude.{ℕ, List, [], ◌∷◌, Option, none, some, zero, suc}
use osodio.Vm.Boxes.{BoxedValue}

pub data Op : Type 0 where
  const load_local store_local discard : Op
  add sub mul div modulo neg : Op
  eq ne lt le gt ge : Op
  negation : Op
  add_int sub_int mul_int : Op
  lt_int le_int gt_int ge_int : Op
  jump jump_if_false jump_if_false_peek jump_if_true_peek : Op
  make_list make_dict : Op
  get_index set_index iter_list get_member set_member : Op
  call_function call_method call_native call_async : Op
  return return_null : Op

pub record SourceLoc : Type 0 where
  pub line : ℕ
  pub col : ℕ

pub record Instr : Type 0 where
  pub op : Op
  pub operand : ℕ
  pub loc : SourceLoc

-- The instructions from `begin` up to `finish` are covered by the `catch` at `catch_pc`.
pub record TryRange : Type 0 where
  pub begin : ℕ
  pub finish : ℕ
  pub catch_pc : ℕ

pub record Chunk : Type 0 where
  pub code : List Instr
  pub constants : List BoxedValue
  pub try_ranges : List TryRange
  pub num_locals : ℕ

-- A member of a vector, or none past its end.
unfoldable pub get_elem? {ℓ} : {A : Type ℓ} → List A → ℕ → Option A
get_elem? [] i = none
get_elem? (x ∷ xs) zero = some x
get_elem? (x ∷ xs) (suc i) = get_elem? xs i

-- The function of an index in the table, if there is a table.
unfoldable pub function_of : Option (List Chunk) → ℕ → Option Chunk
function_of none index = none
function_of (some table) index = get_elem? table index

-- `sin_especializar`
unfoldable pub sin_especializar : Op → Op
sin_especializar add_int = add
sin_especializar sub_int = sub
sin_especializar mul_int = mul
sin_especializar lt_int = lt
sin_especializar le_int = le
sin_especializar gt_int = gt
sin_especializar ge_int = ge
sin_especializar op = op
