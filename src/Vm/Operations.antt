-- ===== src/Vm/Operations.antt =====
-- The instructions of `run_until_error` of src/odio/vm.cpp that are more than an operator.
use osodio.Prelude.{
  Bytes, bytes, ℕ, ℤ, suc, ◌-◌, ◌/◌, ◌%◌, pos, Bool, not, List, [], ◌∷◌, ◌++◌, Option, none, some,
  ltb, leb, if◌then◌else◌, length, replicate,
}
use osodio.Value.Decimal.{to_string}
use osodio.Vm.Boxes.{BoxedValue, null, boolean, integer, str, Boxes, set_at, boxed_truthy}
use osodio.Vm.Code.{
  Op, add, sub, mul, div, modulo, add_int, sub_int, mul_int, Chunk, function_of, sin_especializar,
}
use osodio.Vm.Words.{add_long, sub_long, mul_long}
use osodio.Vm.Arithmetic.{
  Answer, value, long_answer, add_values, arith_values, order_values, order_longs, equals,
}
use osodio.Vm.State
use osodio.Vm.State.{
  Frame, Vm, Reply, Host, Outcome, next, failed, finished, waits, fault, missing, endless, pop_args,
  push, answer, go_to, unary, binary, ternary, leave,
}

-- `kStepLimit` and `kMaxFrames`
abbrev pub step_limit : ℕ
step_limit = 50000000

abbrev pub max_frames : ℕ
max_frames = 200

module _ {C : Type 0} (host : Host C) where
  -- `generico_add`, `generico_arit` and `generico_cmp`, for an instruction that may be specialised.
  unfoldable pub generic : Op → Vm C → Outcome C
  generic add vm = binary (add_values host.floats) vm
  generic add_int vm = binary (add_values host.floats) vm
  generic sub vm = binary (arith_values host.floats sub) vm
  generic sub_int vm = binary (arith_values host.floats sub) vm
  generic mul vm = binary (arith_values host.floats mul) vm
  generic mul_int vm = binary (arith_values host.floats mul) vm
  generic div vm = binary (arith_values host.floats div) vm
  generic modulo vm = binary (arith_values host.floats modulo) vm
  generic op vm = binary (order_values host.floats (sin_especializar op)) vm

  abbrev pub on_longs : Op → ℤ → ℤ → Boxes → Answer
  on_longs add_int x y h = long_answer (add_long x y) h
  on_longs sub_int x y h = long_answer (sub_long x y) h
  on_longs mul_int x y h = long_answer (mul_long x y) h
  on_longs op x y h = value (boolean (order_longs (sin_especializar op) x y)) h

  -- A specialised instruction looks at the top two, and is the generic one unless both are integers.
  unfoldable pub specialised : Op → Vm C → Outcome C
  specialised op vm = elim vm.stack [
    | integer y ∷ integer x ∷ s ↦ answer (on_longs op x y vm.boxes) s vm
    | _ ↦ generic op vm
  ]

  unfoldable pub equality : Bool → Vm C → Outcome C
  equality same vm = elim vm.stack [
    | b ∷ a ∷ s ↦ elim (equals host.floats host.depth vm.boxes a b) [
      | none ↦ fault endless
      | some e ↦ next (record vm { stack = boolean (if same then e else not e) ∷ s })
    ]
    | _ ↦ fault missing
  ]

  -- A jump back is counted, and one too many is an error.
  unfoldable pub jump_to : ℕ → Frame → Vm C → Outcome C
  jump_to target f vm =
      if leb target f.pc
      then (if ltb step_limit (suc vm.steps)
          then failed (bytes "el handler supero el limite de pasos: bucle infinito?")
              (record vm { steps = suc vm.steps })
          else next (go_to target (record vm { steps = suc vm.steps })))
      else next (go_to target vm)

  -- The jumps that ask the top operand: one takes it away, two leave it there when they jump.
  unfoldable pub jump_if_false_to : ℕ → Vm C → Outcome C
  jump_if_false_to target vm = elim vm.stack [
    | v ∷ s ↦
        let popped = record vm { stack = s } in
        next (if boxed_truthy vm.boxes v then popped else go_to target popped)
    | [] ↦ fault missing
  ]

  unfoldable pub jump_peek_to : Bool → ℕ → Vm C → Outcome C
  jump_peek_to on_true target vm = elim vm.stack [
    | v ∷ s ↦ next (
        if (if boxed_truthy vm.boxes v then on_true else not on_true)
        then go_to target vm
        else record vm { stack = s })
    | [] ↦ fault missing
  ]

  unfoldable pub replied : Reply C → List BoxedValue → Vm C → Outcome C
  replied r s vm =
      let after = record vm { stack = s; boxes = r.boxes; ctx = r.ctx } in
      elim r.error [ [] ↦ next (push r.out after) | c ∷ m ↦ failed (c ∷ m) after ]

  unfoldable pub run_native : ℕ → Vm C → Outcome C
  run_native operand vm = elim (pop_args (operand % 256) vm.stack []) [
    | none ↦ fault missing
    | some (args, s) ↦ replied (host.native (operand / 256) args vm.boxes vm.ctx) s vm
  ]

  unfoldable pub run_method : Option BoxedValue → ℕ → Vm C → Outcome C
  run_method (some (str name)) argc vm = elim (pop_args argc vm.stack []) [
    | some (args, recv ∷ s) ↦ replied (host.method recv name args vm.boxes vm.ctx) s vm
    | _ ↦ fault missing
  ]
  run_method _ argc vm = fault missing

  unfoldable pub run_async : ℕ → Vm C → Outcome C
  run_async operand vm = elim (pop_args (operand % 256) vm.stack []) [
    | none ↦ fault missing
    | some (args, s) ↦ waits (operand / 256) args (record vm { stack = s })
  ]

  -- A new frame above the operands and the locals that are there; the arguments are its first locals.
  unfoldable pub enter : Chunk → List BoxedValue → List BoxedValue → Vm C → Outcome C
  enter callee args s vm =
      if ltb callee.num_locals (length args)
      then fault missing
      else next (record vm {
        frames =
            record { chunk = callee; pc = 0; locals_base = length vm.locals; stack_base = length s }
            ∷ vm.frames;
        stack = s;
        locals = vm.locals ++ args ++ replicate (callee.num_locals - length args) null;
      })

  unfoldable pub run_function : ℕ → Vm C → Outcome C
  run_function operand vm = elim (function_of host.functions (operand / 256)) [
    | none ↦ failed (bytes "funcion no encontrada") vm
    | some callee ↦
        if leb max_frames (length vm.frames)
        then failed
            (bytes "demasiada recursion: mas de "
              ++ to_string (pos max_frames)
              ++ bytes " llamadas anidadas")
            vm
        else elim (pop_args (operand % 256) vm.stack []) [
          | none ↦ fault missing
          | some (args, s) ↦ enter callee args s vm
        ]
  ]

  unfoldable pub store : ℕ → Vm C → Outcome C
  store slot vm = elim vm.stack [
    | [] ↦ fault missing
    | v ∷ s ↦
        if ltb slot (length vm.locals)
        then next (record vm { stack = s; locals = set_at slot v vm.locals })
        else fault missing
  ]

  unfoldable pub push_elem : Option BoxedValue → Vm C → Outcome C
  push_elem none vm = fault missing
  push_elem (some v) vm = next (push v vm)

  -- `Pop`, and `Return`
  unfoldable pub drop_top : Vm C → Outcome C
  drop_top vm = elim vm.stack [ [] ↦ fault missing | v ∷ s ↦ next (record vm { stack = s }) ]

  unfoldable pub return_top : Vm C → Outcome C
  return_top vm = elim vm.stack [ [] ↦ fault missing | v ∷ s ↦ leave v (record vm { stack = s }) ]

  -- The instructions on members take their name from the constants.
  unfoldable pub on_member : (Bytes → Vm C → Outcome C) → Option BoxedValue → Vm C → Outcome C
  on_member f (some (str name)) vm = f name vm
  on_member f _ vm = fault missing

  unfoldable pub gather : ℕ → (List BoxedValue → Boxes → Answer) → Vm C → Outcome C
  gather n f vm = elim (pop_args n vm.stack []) [
    | none ↦ fault missing
    | some (args, s) ↦ State.answer (f args vm.boxes) s vm
  ]
