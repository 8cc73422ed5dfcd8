-- ===== src/Vm/Moves/Instructions.antt =====
-- The moves of the instructions of src/odio/vm.cpp.
use osodio.Prelude.{
  Bytes, ℕ, suc, ◌/◌, ◌%◌, ◌≤◌, ◌<◌, ◌≡◌, refl, Bool, true, false, List, [], ◌∷◌, Option, some,
  arith, length, leb, ltb, if◌then◌else◌, Bool-cases, Option-cases, inl, inr,
}
use osodio.Vm.Boxes.{BoxedValue, null, str, boxed_truthy}
use osodio.Vm.Code.{
  Op, const, load_local, store_local, discard, neg, eq, ne, negation, add_int, sub_int, mul_int,
  lt_int, le_int, gt_int, ge_int, jump, jump_if_false, jump_if_false_peek, jump_if_true_peek,
  make_list, make_dict, get_index, set_index, iter_list, get_member, set_member, call_function,
  call_method, call_native, call_async, return, return_null, Chunk, function_of,
}
use osodio.Vm.State.{Frame, Vm, Reply, Host, Outcome, pop_args, push, go_to, leave}
use osodio.Vm.Operations.{
  step_limit, max_frames, jump_to, jump_if_false_to, jump_peek_to, replied, run_native, run_method,
  run_async, enter, run_function, return_top, on_member,
}
use osodio.Vm.Step.{exec}
use osodio.Vm.Moves.{
  Move, ahead, back, called, returned, Moves, unary-Moves, binary-Moves, ternary-Moves,
  gather-Moves, generic-Moves, specialised-Moves, equality-Moves, push_elem-Moves, drop_top-Moves,
  store-Moves,
}

-- A conditional jump goes forward: the emitter fills its target in after it.
unfoldable pub forward : Op → ℕ → ℕ → Bool
forward jump_if_false pc operand = ltb pc operand
forward jump_if_false_peek pc operand = ltb pc operand
forward jump_if_true_peek pc operand = ltb pc operand
forward op pc operand = true

module _ {C : Type 0} (host : Host C) (g : Frame) (fs : List Frame) (v : Vm C) where
  abbrev at : List BoxedValue → Vm C
  at s = record v { frames = g ∷ fs; stack = s }

  abbrev Fine : Outcome C → Type 0
  Fine = Moves host g fs v.steps

  pub leave-Moves :
      (a : BoxedValue) (s : List BoxedValue) (below : List Frame)
      → below ≡ fs
      → Fine (leave a (record v { frames = g ∷ below; stack = s }))
  unfolding leave
  leave-Moves a s [] e = tt
  leave-Moves a s (f ∷ below) e = returned e refl

  return_top-Moves : (s : List BoxedValue) → Fine (return_top host (at s))
  unfolding return_top
  return_top-Moves [] = tt
  return_top-Moves (a ∷ s) = leave-Moves a s fs refl

  jump_to-Moves : (target : ℕ) (s : List BoxedValue) → Fine (jump_to host target g (at s))
  unfolding jump_to go_to
  jump_to-Moves target s = elim (Bool-cases (leb target g.pc)) [
    | inl backwards ↦ elim (Bool-cases (ltb step_limit (suc v.steps))) [
      | inl too_many ↦ rw (jump_to, backwards, too_many) refl
      | inr counted ↦ rw (jump_to, backwards, counted) (back target refl refl (ground arith))
    ]
    | inr forwards ↦ rw (jump_to, forwards) (ahead target (ground arith) refl refl)
  ]

  jump_if_false_to-Moves :
      (target : ℕ) (s : List BoxedValue)
      → g.pc ≤ target
      → Fine (jump_if_false_to host target (at s))
  unfolding jump_if_false_to go_to
  jump_if_false_to-Moves target [] h = tt
  jump_if_false_to-Moves target (a ∷ s) h = elim (Bool-cases (boxed_truthy v.boxes a)) [
    | inl yes_it_is ↦ rw (jump_if_false_to, yes_it_is) (ahead g.pc (omega arith) refl refl)
    | inr it_is_not ↦ rw (jump_if_false_to, it_is_not) (ahead target h refl refl)
  ]

  peeked :
      (jumps : Bool) (target : ℕ) (a : BoxedValue) (s : List BoxedValue)
      → g.pc ≤ target
      → Move host g fs v.steps (if jumps then go_to target (at (a ∷ s)) else at s)
  unfolding go_to
  peeked true target a s h = ahead target h refl refl
  peeked false target a s h = ahead g.pc (omega arith) refl refl

  jump_peek_to-Moves :
      (when : Bool) (target : ℕ) (s : List BoxedValue)
      → g.pc ≤ target
      → Fine (jump_peek_to host when target (at s))
  unfolding jump_peek_to
  jump_peek_to-Moves when target [] h = tt
  jump_peek_to-Moves when target (a ∷ s) h = peeked _ target a s h

  replied-Moves : (r : Reply C) (s t : List BoxedValue) → Fine (replied host r s (at t))
  unfolding replied push
  replied-Moves r s t = by_error r.error refl
    where
      by_error : (m : Bytes) → r.error ≡ m → Fine (replied host r s (at t))
      by_error [] e = rw (replied, e) (ahead g.pc (omega arith) refl refl)
      by_error (c ∷ m) e = rw (replied, e) refl

  run_native-Moves : (operand : ℕ) (s : List BoxedValue) → Fine (run_native host operand (at s))
  unfolding run_native
  run_native-Moves operand s = elim (Option-cases (pop_args (operand % 256) s [])) [
    | inl few ↦ rw (run_native, few) tt
    | inr ((args, rest), there) ↦ rw (run_native, there) (replied-Moves _ rest s)
  ]

  run_async-Moves : (operand : ℕ) (s : List BoxedValue) → Fine (run_async host operand (at s))
  unfolding run_async
  run_async-Moves operand s = elim (Option-cases (pop_args (operand % 256) s [])) [
    | inl few ↦ rw (run_async, few) tt
    | inr ((args, rest), there) ↦ rw (run_async, there) refl
  ]

  run_method-Moves :
      (name : Option BoxedValue) (argc : ℕ) (s : List BoxedValue)
      → Fine (run_method host name argc (at s))
  unfolding run_method
  run_method-Moves (some (str name)) argc s = elim (Option-cases (pop_args argc s [])) [
    | inl few ↦ rw (run_method, few) tt
    | inr ((args, []), there) ↦ rw (run_method, there) tt
    | inr ((args, recv ∷ rest), there) ↦ rw (run_method, there) (replied-Moves _ rest s)
  ]
  run_method-Moves _ argc s = tt

  enter-Moves :
      (index : ℕ) (callee : Chunk) (args s t : List BoxedValue)
      → function_of host.functions index ≡ some callee
      → suc (length fs) < max_frames
      → Fine (enter host callee args s (at t))
  unfolding enter
  enter-Moves index callee args s t there room =
      elim (Bool-cases (ltb callee.num_locals (length args))) [
        | inl too_many ↦ rw (enter, too_many) tt
        | inr fit ↦ rw (enter, fit) (called index _ there refl room refl refl)
      ]

  run_function-Moves : (operand : ℕ) (s : List BoxedValue) → Fine (run_function host operand (at s))
  unfolding run_function
  run_function-Moves operand s = elim (Option-cases (function_of host.functions (operand / 256))) [
    | inl missing ↦ rw (run_function, missing) refl
    | inr (callee, there) ↦ elim (Bool-cases (leb max_frames (suc (length fs)))) [
      | inl full ↦ rw (run_function, there, full) refl
      | inr room ↦ elim (Option-cases (pop_args (operand % 256) s [])) [
        | inl few ↦ rw (run_function, there, room, few) tt
        | inr ((args, rest), popped) ↦
            rw (run_function, there, room, popped)
              (enter-Moves (operand / 256) callee args rest s there (ground arith))
      ]
    ]
  ]

  on_member-Moves :
      (f : Bytes → Vm C → Outcome C) (name : Option BoxedValue) (vm : Vm C)
      → ((n : Bytes) → Fine (f n vm))
      → Fine (on_member host f name vm)
  unfolding on_member
  on_member-Moves f (some (str n)) vm all = all n
  on_member-Moves f _ vm all = tt

  -- Whatever the bytecode, an instruction whose conditional jump goes forward makes one of the moves.
  pub exec-Moves :
      (op : Op) (operand pc : ℕ)
      → g.pc ≡ suc pc
      → forward op pc operand ≡ true
      → Fine (exec host op operand g (record v { frames = g ∷ fs }))
  unfolding exec forward
  exec-Moves const operand pc p h = push_elem-Moves host g fs v _ v.stack
  exec-Moves load_local operand pc p h = push_elem-Moves host g fs v _ v.stack
  exec-Moves store_local operand pc p h = store-Moves host g fs v _ v.stack
  exec-Moves discard operand pc p h = drop_top-Moves host g fs v v.stack
  exec-Moves neg operand pc p h = unary-Moves host g fs v _ v.stack
  exec-Moves negation operand pc p h = unary-Moves host g fs v _ v.stack
  exec-Moves iter_list operand pc p h = unary-Moves host g fs v _ v.stack
  exec-Moves add_int operand pc p h = specialised-Moves host g fs v _ v.stack
  exec-Moves sub_int operand pc p h = specialised-Moves host g fs v _ v.stack
  exec-Moves mul_int operand pc p h = specialised-Moves host g fs v _ v.stack
  exec-Moves lt_int operand pc p h = specialised-Moves host g fs v _ v.stack
  exec-Moves le_int operand pc p h = specialised-Moves host g fs v _ v.stack
  exec-Moves gt_int operand pc p h = specialised-Moves host g fs v _ v.stack
  exec-Moves ge_int operand pc p h = specialised-Moves host g fs v _ v.stack
  exec-Moves eq operand pc p h = equality-Moves host g fs v _ v.stack
  exec-Moves ne operand pc p h = equality-Moves host g fs v _ v.stack
  exec-Moves jump operand pc p h = jump_to-Moves operand v.stack
  exec-Moves jump_if_false operand pc p h = jump_if_false_to-Moves operand v.stack (ground arith)
  exec-Moves jump_if_false_peek operand pc p h =
      jump_peek_to-Moves false operand v.stack (ground arith)
  exec-Moves jump_if_true_peek operand pc p h =
      jump_peek_to-Moves true operand v.stack (ground arith)
  exec-Moves make_list operand pc p h = gather-Moves host g fs v _ _ v.stack
  exec-Moves make_dict operand pc p h = gather-Moves host g fs v _ _ v.stack
  exec-Moves get_index operand pc p h = binary-Moves host g fs v _ v.stack
  exec-Moves set_index operand pc p h = ternary-Moves host g fs v _ v.stack
  exec-Moves get_member operand pc p h =
      on_member-Moves _ _ _ λ name. unary-Moves host g fs v _ v.stack
  exec-Moves set_member operand pc p h =
      on_member-Moves _ _ _ λ name. binary-Moves host g fs v _ v.stack
  exec-Moves call_function operand pc p h = run_function-Moves operand v.stack
  exec-Moves call_method operand pc p h = run_method-Moves _ _ v.stack
  exec-Moves call_native operand pc p h = run_native-Moves operand v.stack
  exec-Moves call_async operand pc p h = run_async-Moves operand v.stack
  exec-Moves return operand pc p h = return_top-Moves v.stack
  exec-Moves return_null operand pc p h = leave-Moves null v.stack fs refl
  exec-Moves _ operand pc p h = generic-Moves host g fs v _ v.stack
