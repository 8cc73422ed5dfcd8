-- ===== src/Vm/Step.antt =====
-- One instruction of `run_until_error` of src/odio/vm.cpp.
use osodio.Prelude.{ℕ, suc, ◌+◌, ◌*◌, ◌/◌, ◌%◌, true, false, not, List, [], ◌∷◌, none, some}
use osodio.Vm.Boxes.{null, boolean, boxed_truthy}
use osodio.Vm.Code.{
  Op, const, load_local, store_local, discard, neg, eq, ne, negation, add_int, sub_int, mul_int,
  lt_int, le_int, gt_int, ge_int, jump, jump_if_false, jump_if_false_peek, jump_if_true_peek,
  make_list, make_dict, get_index, set_index, iter_list, get_member, set_member, call_function,
  call_method, call_native, call_async, return, return_null, get_elem?,
}
use osodio.Vm.Arithmetic.{value, negate}
use osodio.Vm.Members
use osodio.Vm.Operations.{
  generic, specialised, equality, jump_to, jump_if_false_to, jump_peek_to, run_native, run_method,
  run_async, run_function, store, push_elem, drop_top, return_top, on_member, gather,
}
use osodio.Vm.State.{Frame, Vm, Host, Outcome, finished, unary, binary, ternary, leave}

module _ {C : Type 0} (host : Host C) where
  -- The `switch`; `f` is the top frame, whose counter is past the instruction.
  unfoldable pub exec : Op → ℕ → Frame → Vm C → Outcome C
  exec const operand f vm = push_elem host (get_elem? f.chunk.constants operand) vm
  exec load_local operand f vm = push_elem host (get_elem? vm.locals (f.locals_base + operand)) vm
  exec store_local operand f vm = store host (f.locals_base + operand) vm
  exec discard operand f vm = drop_top host vm
  exec neg operand f vm = unary (negate host.floats) vm
  exec eq operand f vm = equality host true vm
  exec ne operand f vm = equality host false vm
  exec negation operand f vm = unary (λ a h. value (boolean (not (boxed_truthy h a))) h) vm
  exec add_int operand f vm = specialised host add_int vm
  exec sub_int operand f vm = specialised host sub_int vm
  exec mul_int operand f vm = specialised host mul_int vm
  exec lt_int operand f vm = specialised host lt_int vm
  exec le_int operand f vm = specialised host le_int vm
  exec gt_int operand f vm = specialised host gt_int vm
  exec ge_int operand f vm = specialised host ge_int vm
  exec jump operand f vm = jump_to host operand f vm
  exec jump_if_false operand f vm = jump_if_false_to host operand vm
  exec jump_if_false_peek operand f vm = jump_peek_to host false operand vm
  exec jump_if_true_peek operand f vm = jump_peek_to host true operand vm
  exec make_list operand f vm = gather host operand Members.make_list vm
  exec make_dict operand f vm = gather host (operand * 2) (λ vs. Members.make_dict vs []) vm
  exec get_index operand f vm = binary Members.get_index vm
  exec set_index operand f vm = ternary Members.set_index vm
  exec iter_list operand f vm = unary Members.iter_list vm
  exec get_member operand f vm =
      on_member host (λ name. unary (Members.get_member name)) (get_elem? f.chunk.constants operand)
        vm
  exec set_member operand f vm =
      on_member host (λ name. binary (Members.set_member name))
        (get_elem? f.chunk.constants operand) vm
  exec call_function operand f vm = run_function host operand vm
  exec call_method operand f vm =
      run_method host (get_elem? f.chunk.constants (operand / 256)) (operand % 256) vm
  exec call_native operand f vm = run_native host operand vm
  exec call_async operand f vm = run_async host operand vm
  exec return operand f vm = return_top host vm
  exec return_null operand f vm = leave null vm
  exec op operand f vm = generic host op vm

  -- Past the end of its code a frame leaves with `null`; else it takes the next instruction.
  unfoldable pub fetch : Frame → List Frame → Vm C → Outcome C
  fetch f fs vm = elim (get_elem? f.chunk.code f.pc) [
    | none ↦ leave null vm
    | some i ↦
        let g = record f { pc = suc f.pc } in exec i.op i.operand g (record vm { frames = g ∷ fs })
  ]

  unfoldable pub step : Vm C → Outcome C
  step vm = elim vm.frames [ [] ↦ finished null vm | f ∷ fs ↦ fetch f fs vm ]
