-- ===== src/Vm/Specialised.antt =====
-- The specialised instructions of include/odio/bytecode.hpp against the generic ones.
use osodio.Prelude.{ℕ, ◌≡◌, refl, arith}
use osodio.Vm.Code.{Op, add_int, sub_int, mul_int, lt_int, le_int, gt_int, ge_int, sin_especializar}
use osodio.Vm.Arithmetic.{add_values, arith_values, arith_longs, order_values, compare}
use osodio.Vm.State.{Frame, Vm, Host, answer, binary}
use osodio.Vm.Operations.{generic, specialised}
use osodio.Vm.Step.{exec}

module _ {C : Type 0} (host : Host C) where
  -- A specialised instruction does on every state what the generic one does: the same value, the
  -- same error or the same fault; and an instruction that is not specialised is its own generic one.
  pub exec-sin_especializar :
      (op : Op) (operand : ℕ) (f : Frame) (vm : Vm C)
      → exec host op operand f vm ≡ exec host (sin_especializar op) operand f vm
  unfolding exec sin_especializar specialised generic binary answer add_values arith_values
      arith_longs order_values compare
  exec-sin_especializar add_int operand f vm = ground arith
  exec-sin_especializar sub_int operand f vm = ground arith
  exec-sin_especializar mul_int operand f vm = ground arith
  exec-sin_especializar lt_int operand f vm = ground arith
  exec-sin_especializar le_int operand f vm = ground arith
  exec-sin_especializar gt_int operand f vm = ground arith
  exec-sin_especializar ge_int operand f vm = ground arith
  exec-sin_especializar _ operand f vm = refl
