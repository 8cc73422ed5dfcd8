-- ===== src/Vm/Checker.antt =====
-- A check of the bytecode: with the number of operands that each instruction of a chunk finds, what
-- every instruction takes, leaves and asks for is there.
use osodio.Prelude.{
  ℕ, zero, suc, ◌+◌, ◌*◌, ◌/◌, ◌%◌, ◌≡◌, Bool, true, false, ◌&&◌, List, [], ◌∷◌, Option, none, some,
  ltb, leb, ◌==◌, is_some, arith,
}
use osodio.Vm.Boxes.{BoxedValue, str}
use osodio.Vm.Code
use osodio.Vm.Code.{
  Op, const, load_local, store_local, discard, neg, negation, jump, jump_if_false,
  jump_if_false_peek, jump_if_true_peek, make_list, make_dict, set_index, iter_list, get_member,
  call_function, call_method, call_native, call_async, return, return_null, Instr, TryRange, Chunk,
  get_elem?, function_of,
}

-- How many operands an instruction takes, and how many it leaves for the next one.
unfoldable pub pops : Op → ℕ → ℕ
pops const operand = 0
pops load_local operand = 0
pops store_local operand = 1
pops discard operand = 1
pops neg operand = 1
pops negation operand = 1
pops jump operand = 0
pops jump_if_false operand = 1
pops jump_if_false_peek operand = 1
pops jump_if_true_peek operand = 1
pops make_list operand = operand
pops make_dict operand = operand * 2
pops set_index operand = 3
pops iter_list operand = 1
pops get_member operand = 1
pops call_function operand = operand % 256
pops call_method operand = suc (operand % 256)
pops call_native operand = operand % 256
pops call_async operand = operand % 256
pops return operand = 1
pops return_null operand = 0
pops _ operand = 2

unfoldable pub pushes : Op → ℕ
pushes store_local = 0
pushes discard = 0
pushes jump_if_false = 0
pushes jump_if_false_peek = 0
pushes jump_if_true_peek = 0
pushes _ = 1

abbrev pub is_name : Option BoxedValue → Bool
is_name (some (str s)) = true
is_name _ = false

-- A function that is called takes its arguments as locals.
abbrev pub takes : ℕ → Option Chunk → Bool
takes argc none = true
takes argc (some callee) = leb argc callee.num_locals

module _ (functions : Option (List Chunk)) (depth : ℕ → ℕ) (ch : Chunk) where
  -- After the instruction at `pc`, the next one finds what is left.
  abbrev falls : ℕ → Op → ℕ → Bool
  falls pc op operand = depth (suc pc) + pops op operand == depth pc + pushes op

  -- The target of a jump finds `left` operands of those there were, less what is taken.
  abbrev lands : ℕ → ℕ → ℕ → Bool
  lands pc target taken = depth target + taken == depth pc

  -- What an instruction asks for besides its operands, and where it goes on.
  unfoldable pub goes_on : ℕ → Op → ℕ → Bool
  goes_on pc const operand = is_some (get_elem? ch.constants operand) && falls pc const operand
  goes_on pc load_local operand = ltb operand ch.num_locals && falls pc load_local operand
  goes_on pc store_local operand = ltb operand ch.num_locals && falls pc store_local operand
  goes_on pc jump operand = lands pc operand 0
  goes_on pc jump_if_false operand = falls pc jump_if_false operand && lands pc operand 1
  goes_on pc jump_if_false_peek operand = falls pc jump_if_false_peek operand && lands pc operand 0
  goes_on pc jump_if_true_peek operand = falls pc jump_if_true_peek operand && lands pc operand 0
  goes_on pc get_member operand =
      is_name (get_elem? ch.constants operand) && falls pc get_member operand
  goes_on pc Code.set_member operand =
      is_name (get_elem? ch.constants operand) && falls pc Code.set_member operand
  goes_on pc call_method operand =
      is_name (get_elem? ch.constants (operand / 256)) && falls pc call_method operand
  goes_on pc call_function operand =
      takes (operand % 256) (function_of functions (operand / 256))
      && falls pc call_function operand
  goes_on pc return operand = true
  goes_on pc return_null operand = true
  goes_on pc op operand = falls pc op operand

  unfoldable pub instr_ok : ℕ → Instr → Bool
  instr_ok pc i = leb (pops i.op i.operand) (depth pc) && goes_on pc i.op i.operand

  unfoldable pub code_ok : ℕ → List Instr → Bool
  code_ok pc [] = true
  code_ok pc (i ∷ is) = instr_ok pc i && code_ok (suc pc) is

  -- A `catch` finds the error only.
  unfoldable pub ranges_ok : List TryRange → Bool
  ranges_ok [] = true
  ranges_ok (r ∷ rs) = depth r.catch_pc == 1 && ranges_ok rs

  unfoldable pub chunk_ok : Bool
  chunk_ok = depth 0 == 0 && code_ok 0 ch.code && ranges_ok ch.try_ranges

  pub code_ok-get_elem? :
      (pc k : ℕ) (code : List Instr) (i : Instr)
      → code_ok pc code ≡ true
      → get_elem? code k ≡ some i
      → instr_ok (pc + k) i ≡ true
  unfolding code_ok get_elem?
  code_ok-get_elem? pc k [] i ok at = cc
  code_ok-get_elem? pc zero (j ∷ is) i ok at = ground arith
  code_ok-get_elem? pc (suc k) (j ∷ is) i ok at = ground (arith, code_ok-get_elem? (suc pc) k is i)
