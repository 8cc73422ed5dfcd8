-- ===== src/Vm/Depth/Instructions.antt =====
-- The instructions of src/odio/vm.cpp, on checked bytecode.
use osodio.Prelude.{
  ℕ, suc, ◌+◌, ◌-◌, ◌*◌, ◌/◌, ◌%◌, ◌≤◌, ◌≡◌, refl, true, false, List, ◌∷◌, some, arith, length,
  Bytes, Option, is_some, ◌<◌,
}
use osodio.Vm.Boxes.{BoxedValue, null, str}
use osodio.Vm.Code.{
  Op, const, load_local, store_local, discard, add, sub, mul, div, modulo, neg, eq, ne, lt, le, gt,
  ge, negation, add_int, sub_int, mul_int, lt_int, le_int, gt_int, ge_int, jump, jump_if_false,
  jump_if_false_peek, jump_if_true_peek, make_list, make_dict, get_index, set_index, iter_list,
  get_member, set_member, call_function, call_method, call_native, call_async, return, return_null,
  Chunk, get_elem?, function_of,
}
use osodio.Vm.State.{Frame, Vm, Host, Outcome}
use osodio.Vm.Operations.{on_member}
use osodio.Vm.Step.{exec}
use osodio.Vm.Checker.{pops, pushes, goes_on, is_name}
use osodio.Vm.Depth.{
  Checked, Callers, Leaves, unary-Leaves, binary-Leaves, ternary-Leaves, gather-Leaves,
  generic-Leaves, specialised-Leaves, equality-Leaves,
}
use osodio.Vm.Depth.Frames.{
  get_elem?-some, drop_top-Leaves, return_top-Leaves, leave-Leaves, push_elem-Leaves, store-Leaves,
  jump_to-Leaves, jump_if_false_to-Leaves, jump_peek_to-Leaves, run_native-Leaves, run_async-Leaves,
  run_method-Leaves, run_function-Leaves,
}

-- Every function of the table is checked.
abbrev pub TableChecked : {C : Type 0} → Host C → (Chunk → ℕ → ℕ) → Type 0
TableChecked host depth =
    (index : ℕ) (callee : Chunk)
    → function_of host.functions index ≡ some callee
    → Checked host depth callee

module _ {C : Type 0} (host : Host C) (depth : Chunk → ℕ → ℕ) (table : TableChecked host depth)
    (g : Frame) (fs : List Frame) (v : Vm C) (pc : ℕ) (checked : Checked host depth g.chunk)
    (advanced : g.pc ≡ suc pc) (locals : length v.locals ≡ g.locals_base + g.chunk.num_locals)
    (below : Callers host depth fs g.stack_base g.locals_base)
    (deep : length v.stack ≡ g.stack_base + depth g.chunk pc) where
  abbrev ready : Vm C
  ready = record v { frames = g ∷ fs }

  on_member-Leaves :
      (f : Bytes → Vm C → Outcome C) (name : Option BoxedValue) (vm : Vm C)
      → is_name name ≡ true
      → ((n : Bytes) → Leaves host depth (f n vm))
      → Leaves host depth (on_member host f name vm)
  unfolding on_member
  on_member-Leaves f (some (str n)) vm named all = all n
  on_member-Leaves f _ vm named all = cc

  local_there :
      (slot : ℕ)
      → slot < g.chunk.num_locals
      → is_some (get_elem? v.locals (g.locals_base + slot)) ≡ true
  local_there slot h =
      let (a, e) = get_elem?-some v.locals (g.locals_base + slot) (omega arith) in rw e refl

  pub exec-Leaves :
      (op : Op) (operand : ℕ)
      → pops op operand ≤ depth g.chunk pc
      → goes_on host.functions (depth g.chunk) g.chunk pc op operand ≡ true
      → Leaves host depth (exec host op operand g ready)
  unfolding exec goes_on pops pushes
  exec-Leaves const operand h ok =
      push_elem-Leaves host depth g fs v (depth g.chunk pc) checked locals below _ v.stack
        (ground arith) (rw advanced (ground arith)) deep
  exec-Leaves load_local operand h ok =
      push_elem-Leaves host depth g fs v (depth g.chunk pc) checked locals below _ v.stack
        (local_there operand (ground arith)) (rw advanced (ground arith)) deep
  exec-Leaves store_local operand h ok =
      store-Leaves host depth g fs v (depth g.chunk pc - 1) checked locals below
        (g.locals_base + operand) v.stack (ground arith) (rw advanced (ground arith)) (omega arith)
  exec-Leaves discard operand h ok =
      drop_top-Leaves host depth g fs v (depth g.chunk pc - 1) checked locals below v.stack
        (rw advanced (ground arith)) (omega arith)
  exec-Leaves add operand h ok =
      generic-Leaves host depth g fs v (depth g.chunk pc - 2) checked locals below
        (rw advanced (ground arith)) add v.stack (omega arith)
  exec-Leaves sub operand h ok =
      generic-Leaves host depth g fs v (depth g.chunk pc - 2) checked locals below
        (rw advanced (ground arith)) sub v.stack (omega arith)
  exec-Leaves mul operand h ok =
      generic-Leaves host depth g fs v (depth g.chunk pc - 2) checked locals below
        (rw advanced (ground arith)) mul v.stack (omega arith)
  exec-Leaves div operand h ok =
      generic-Leaves host depth g fs v (depth g.chunk pc - 2) checked locals below
        (rw advanced (ground arith)) div v.stack (omega arith)
  exec-Leaves modulo operand h ok =
      generic-Leaves host depth g fs v (depth g.chunk pc - 2) checked locals below
        (rw advanced (ground arith)) modulo v.stack (omega arith)
  exec-Leaves lt operand h ok =
      generic-Leaves host depth g fs v (depth g.chunk pc - 2) checked locals below
        (rw advanced (ground arith)) lt v.stack (omega arith)
  exec-Leaves le operand h ok =
      generic-Leaves host depth g fs v (depth g.chunk pc - 2) checked locals below
        (rw advanced (ground arith)) le v.stack (omega arith)
  exec-Leaves gt operand h ok =
      generic-Leaves host depth g fs v (depth g.chunk pc - 2) checked locals below
        (rw advanced (ground arith)) gt v.stack (omega arith)
  exec-Leaves ge operand h ok =
      generic-Leaves host depth g fs v (depth g.chunk pc - 2) checked locals below
        (rw advanced (ground arith)) ge v.stack (omega arith)
  exec-Leaves add_int operand h ok =
      specialised-Leaves host depth g fs v (depth g.chunk pc - 2) checked locals below
        (rw advanced (ground arith)) add_int v.stack (omega arith)
        (generic-Leaves host depth g fs v (depth g.chunk pc - 2) checked locals below
          (rw advanced (ground arith)) add_int v.stack (omega arith))
  exec-Leaves sub_int operand h ok =
      specialised-Leaves host depth g fs v (depth g.chunk pc - 2) checked locals below
        (rw advanced (ground arith)) sub_int v.stack (omega arith)
        (generic-Leaves host depth g fs v (depth g.chunk pc - 2) checked locals below
          (rw advanced (ground arith)) sub_int v.stack (omega arith))
  exec-Leaves mul_int operand h ok =
      specialised-Leaves host depth g fs v (depth g.chunk pc - 2) checked locals below
        (rw advanced (ground arith)) mul_int v.stack (omega arith)
        (generic-Leaves host depth g fs v (depth g.chunk pc - 2) checked locals below
          (rw advanced (ground arith)) mul_int v.stack (omega arith))
  exec-Leaves lt_int operand h ok =
      specialised-Leaves host depth g fs v (depth g.chunk pc - 2) checked locals below
        (rw advanced (ground arith)) lt_int v.stack (omega arith)
        (generic-Leaves host depth g fs v (depth g.chunk pc - 2) checked locals below
          (rw advanced (ground arith)) lt_int v.stack (omega arith))
  exec-Leaves le_int operand h ok =
      specialised-Leaves host depth g fs v (depth g.chunk pc - 2) checked locals below
        (rw advanced (ground arith)) le_int v.stack (omega arith)
        (generic-Leaves host depth g fs v (depth g.chunk pc - 2) checked locals below
          (rw advanced (ground arith)) le_int v.stack (omega arith))
  exec-Leaves gt_int operand h ok =
      specialised-Leaves host depth g fs v (depth g.chunk pc - 2) checked locals below
        (rw advanced (ground arith)) gt_int v.stack (omega arith)
        (generic-Leaves host depth g fs v (depth g.chunk pc - 2) checked locals below
          (rw advanced (ground arith)) gt_int v.stack (omega arith))
  exec-Leaves ge_int operand h ok =
      specialised-Leaves host depth g fs v (depth g.chunk pc - 2) checked locals below
        (rw advanced (ground arith)) ge_int v.stack (omega arith)
        (generic-Leaves host depth g fs v (depth g.chunk pc - 2) checked locals below
          (rw advanced (ground arith)) ge_int v.stack (omega arith))
  exec-Leaves neg operand h ok =
      unary-Leaves host depth g fs v (depth g.chunk pc - 1) checked locals below
        (rw advanced (ground arith)) _ v.stack (omega arith)
  exec-Leaves negation operand h ok =
      unary-Leaves host depth g fs v (depth g.chunk pc - 1) checked locals below
        (rw advanced (ground arith)) _ v.stack (omega arith)
  exec-Leaves iter_list operand h ok =
      unary-Leaves host depth g fs v (depth g.chunk pc - 1) checked locals below
        (rw advanced (ground arith)) _ v.stack (omega arith)
  exec-Leaves eq operand h ok =
      equality-Leaves host depth g fs v (depth g.chunk pc - 2) checked locals below
        (rw advanced (ground arith)) true v.stack (omega arith)
  exec-Leaves ne operand h ok =
      equality-Leaves host depth g fs v (depth g.chunk pc - 2) checked locals below
        (rw advanced (ground arith)) false v.stack (omega arith)
  exec-Leaves jump operand h ok =
      jump_to-Leaves host depth g fs v (depth g.chunk pc) checked locals below operand v.stack
        (ground arith) deep
  exec-Leaves jump_if_false operand h ok =
      jump_if_false_to-Leaves host depth g fs v (depth g.chunk pc - 1) checked locals below operand
        v.stack (ground arith) (rw advanced (ground arith)) (omega arith)
  exec-Leaves jump_if_false_peek operand h ok =
      jump_peek_to-Leaves host depth g fs v (depth g.chunk pc - 1) checked locals below false
        operand v.stack (ground arith) (rw advanced (ground arith)) (omega arith)
  exec-Leaves jump_if_true_peek operand h ok =
      jump_peek_to-Leaves host depth g fs v (depth g.chunk pc - 1) checked locals below true operand
        v.stack (ground arith) (rw advanced (ground arith)) (omega arith)
  exec-Leaves make_list operand h ok =
      gather-Leaves host depth g fs v (depth g.chunk pc - operand) checked locals below
        (rw advanced (ground arith)) operand _ v.stack (omega arith)
  exec-Leaves make_dict operand h ok =
      gather-Leaves host depth g fs v (depth g.chunk pc - operand * 2) checked locals below
        (rw advanced (ground arith)) (operand * 2) _ v.stack (omega arith)
  exec-Leaves get_index operand h ok =
      binary-Leaves host depth g fs v (depth g.chunk pc - 2) checked locals below
        (rw advanced (ground arith)) _ v.stack (omega arith)
  exec-Leaves set_index operand h ok =
      ternary-Leaves host depth g fs v (depth g.chunk pc - 3) checked locals below
        (rw advanced (ground arith)) _ v.stack (omega arith)
  exec-Leaves get_member operand h ok =
      on_member-Leaves _ (get_elem? g.chunk.constants operand) ready (ground arith) λ name.
        unary-Leaves host depth g fs v (depth g.chunk pc - 1) checked locals below
          (rw advanced (ground arith)) _ v.stack (omega arith)
  exec-Leaves set_member operand h ok =
      on_member-Leaves _ (get_elem? g.chunk.constants operand) ready (ground arith) λ name.
        binary-Leaves host depth g fs v (depth g.chunk pc - 2) checked locals below
          (rw advanced (ground arith)) _ v.stack (omega arith)
  exec-Leaves call_function operand h ok =
      run_function-Leaves host depth g fs v (depth g.chunk pc - operand % 256) checked locals below
        operand v.stack table (ground arith) (rw advanced (ground arith)) (omega arith)
  exec-Leaves call_method operand h ok =
      run_method-Leaves host depth g fs v (depth g.chunk pc - suc (operand % 256)) checked locals
        below (get_elem? g.chunk.constants (operand / 256)) (operand % 256) v.stack (ground arith)
        (rw advanced (ground arith)) (omega arith)
  exec-Leaves call_native operand h ok =
      run_native-Leaves host depth g fs v (depth g.chunk pc - operand % 256) checked locals below
        operand v.stack (rw advanced (ground arith)) (omega arith)
  exec-Leaves call_async operand h ok =
      run_async-Leaves host depth g fs v (depth g.chunk pc - operand % 256) checked locals below
        operand v.stack (rw advanced (ground arith)) (omega arith)
  exec-Leaves return operand h ok =
      return_top-Leaves host depth g fs v (depth g.chunk pc - 1) checked locals below v.stack
        (omega arith)
  exec-Leaves return_null operand h ok = leave-Leaves host depth null g fs v below
