-- ===== src/Vm/Depth/Runs.antt =====
-- Runs of src/odio/vm.cpp on checked bytecode.
use osodio.Prelude.{
  Bytes, ℕ, zero, suc, ◌-◌, ◌≤◌, ◌≡◌, refl, true, List, [], ◌∷◌, Option, some, none, arith, length,
  Option-cases, inl, inr,
}
use osodio.Vm.Boxes.{BoxedValue, null, Boxes}
use osodio.Vm.Code.{SourceLoc, Chunk, Instr, TryRange, get_elem?}
use osodio.Vm.State.{
  Frame, Vm, Host, Outcome, next, failed, finished, waits, fault, missing, overflow, endless, push,
  resize_stack, resize_locals,
}
use osodio.Vm.Step.{fetch, step}
use osodio.Vm.Handlers.{
  find_from, find_handler, handler_of, Unwound, uncaught, caught, unwind, deliver, error_value,
}
use osodio.Vm.Run.{
  Result, proceed, take_error, handle, done, error, suspended, undefined, run, run_until_error,
  execute, started, start, resume,
}
use osodio.Vm.Checker.{pops, goes_on, instr_ok, chunk_ok, ranges_ok, code_ok-get_elem?}
use osodio.Vm.Depth.{
  Checked, Callers, Running, Failing, Leaves, IsSound, IsFailing, length-resize_stack,
  length-resize_locals,
}
use osodio.Vm.Depth.Frames.{leave-Leaves, chunk_ok-entry}
use osodio.Vm.Depth.Instructions.{TableChecked, exec-Leaves}

module _ {C : Type 0} (host : Host C) (depth : Chunk → ℕ → ℕ)
    (table : TableChecked host depth) where
  fetched_ok :
      (ch : Chunk) (pc : ℕ) (i : Instr)
      → Checked host depth ch
      → get_elem? ch.code pc ≡ some i
      → (pops i.op i.operand ≤ depth ch pc)
        × (goes_on host.functions (depth ch) ch pc i.op i.operand ≡ true)
  unfolding chunk_ok instr_ok
  fetched_ok ch pc i ok there =
      ground (arith, code_ok-get_elem? host.functions (depth ch) ch 0 pc ch.code i)

  fetch-Leaves :
      (f : Frame) (fs : List Frame) (vm : Vm C)
      → Running host depth (f ∷ fs) (length vm.stack) (length vm.locals)
      → Leaves host depth (fetch host f fs (record vm { frames = f ∷ fs }))
  unfolding fetch
  fetch-Leaves f fs vm ((checked, base, locals), deep, below) =
      elim (Option-cases (get_elem? f.chunk.code f.pc)) [
        | inl past ↦ rw (fetch, past) (leave-Leaves host depth null f fs vm below)
        | inr (i, there) ↦
            let (enough, ok) = fetched_ok f.chunk f.pc i checked there in
            rw (fetch, there)
              (exec-Leaves host depth table (record f { pc = suc f.pc }) fs vm f.pc checked refl
                locals below deep i.op i.operand enough ok)
      ]

  -- One instruction, from a machine in order.
  pub step-Leaves :
      (fs : List Frame) (vm : Vm C)
      → Running host depth fs (length vm.stack) (length vm.locals)
      → Leaves host depth (step host (record vm { frames = fs }))
  unfolding step
  step-Leaves [] vm h = tt
  step-Leaves (f ∷ fs) vm h = fetch-Leaves f fs vm h

  -- A handler of checked bytecode is entered with the error only.
  find_from-depth :
      (ch : Chunk) (pc : ℕ) (r : TryRange) (rs : List TryRange) (best : Option TryRange)
      → ((q : TryRange) → best ≡ some q → depth ch q.catch_pc ≡ 1)
      → ranges_ok host.functions (depth ch) ch rs ≡ true
      → find_from best rs pc ≡ some r
      → depth ch r.catch_pc ≡ 1
  unfolding find_from ranges_ok
  find_from-depth ch pc r [] best all ok found = all r found
  find_from-depth ch pc r (q ∷ rs) best all ok found =
      find_from-depth ch pc r rs _ (λ t e. ground (arith, all t)) (ground arith) found

  handler_of-depth :
      (f : Frame) (r : TryRange)
      → Checked host depth f.chunk
      → handler_of f ≡ some r
      → depth f.chunk r.catch_pc ≡ 1
  unfolding find_handler chunk_ok
  handler_of-depth f r ok found =
      find_from-depth f.chunk (f.pc - 1) r f.chunk.try_ranges none (λ q e. cc) (ground arith) found

  abbrev Caught : Unwound C → Type 0
  Caught (uncaught vm) = IsFailing host depth vm
  Caught (caught r f fs vm) =
      Failing host depth (f ∷ fs) (length vm.stack) (length vm.locals)
      × (depth f.chunk r.catch_pc ≡ 1)

  pub popped :
      (fs : List Frame) (s l : List BoxedValue) (n m : ℕ)
      → length s ≡ n
      → length l ≡ m
      → Callers host depth fs n m
      → Failing host depth fs (length s) (length l)
  popped [] s l n m e d below = tt
  popped (f ∷ fs) s l n m e d below = ground arith

  unwind-Caught :
      (fs : List Frame) (vm : Vm C)
      → Failing host depth fs (length vm.stack) (length vm.locals)
      → Caught (unwind fs vm)
  unfolding unwind
  unwind-Caught [] vm h = tt
  unwind-Caught (f ∷ fs) vm ((checked, base, locals), below) = elim (Option-cases (handler_of f)) [
    | inl not_here ↦
        rw (unwind, not_here)
          (unwind-Caught fs _ (
            popped fs (resize_stack f.stack_base vm.stack) (resize_locals f.locals_base vm.locals)
              f.stack_base f.locals_base (length-resize_stack f.stack_base vm.stack)
              (length-resize_locals f.locals_base vm.locals) below))
    | inr (r, here) ↦
        rw (unwind, here) (((checked, base, locals), below), handler_of-depth f r checked here)
  ]

  deliver-IsSound :
      (r : TryRange) (f : Frame) (fs : List Frame) (m : Bytes) (vm : Vm C)
      → Caught (caught r f fs vm)
      → IsSound host depth (deliver r f fs m vm)
  unfolding deliver error_value
  deliver-IsSound r f fs m vm h = ground (arith, length-resize_stack f.stack_base vm.stack)

  -- What a run may give: nothing that is missing, and machines in order.
  abbrev pub IsOrderly : Option (Result C) → Type 0
  IsOrderly none = Unit
  IsOrderly (some (done v vm)) = Unit
  IsOrderly (some (error m loc vm)) = IsFailing host depth vm
  IsOrderly (some (suspended id args vm)) = IsSound host depth (push null vm)
  IsOrderly (some (undefined missing)) = ⊥
  IsOrderly (some (undefined overflow)) = Unit
  IsOrderly (some (undefined endless)) = Unit

  proceed-IsOrderly :
      (go_on : Vm C → Option (Result C)) (o : Outcome C)
      → ((vm : Vm C) → IsSound host depth vm → IsOrderly (go_on vm))
      → Leaves host depth o
      → IsOrderly (proceed go_on o)
  unfolding proceed
  proceed-IsOrderly go_on (next vm) all h = all vm h
  proceed-IsOrderly go_on (failed m vm) all h = h
  proceed-IsOrderly go_on (finished v vm) all h = h
  proceed-IsOrderly go_on (waits id args vm) all h = h
  proceed-IsOrderly go_on (fault missing) all h = h
  proceed-IsOrderly go_on (fault overflow) all h = h
  proceed-IsOrderly go_on (fault endless) all h = h

  run-IsOrderly : (fuel : ℕ) (vm : Vm C) → IsSound host depth vm → IsOrderly (run host fuel vm)
  unfolding run
  run-IsOrderly zero vm h = tt
  run-IsOrderly (suc fuel) vm h =
      proceed-IsOrderly (run host fuel) (step host vm) (run-IsOrderly fuel)
        (step-Leaves vm.frames vm h)

  pub run_until_error-IsOrderly :
      (fuel : ℕ) (vm : Vm C) → IsSound host depth vm → IsOrderly (run_until_error host fuel vm)
  unfolding run_until_error
  run_until_error-IsOrderly fuel vm h = run-IsOrderly fuel (record vm { steps = 0 }) h

  take_error-IsOrderly :
      (go_on : Vm C → Option (Result C)) (m : Bytes) (loc : Option SourceLoc) (u : Unwound C)
      → ((vm : Vm C) → IsSound host depth vm → IsOrderly (go_on vm))
      → Caught u
      → IsOrderly (take_error go_on m loc u)
  unfolding take_error
  take_error-IsOrderly go_on m loc (uncaught vm) all h = h
  take_error-IsOrderly go_on m loc (caught r f fs vm) all h =
      all (deliver r f fs m vm) (deliver-IsSound r f fs m vm h)

  handle-IsOrderly :
      (go_on : Vm C → Option (Result C)) (r : Option (Result C))
      → ((vm : Vm C) → IsSound host depth vm → IsOrderly (go_on vm))
      → IsOrderly r
      → IsOrderly (handle go_on r)
  unfolding handle
  handle-IsOrderly go_on (some (error m loc vm)) all h =
      take_error-IsOrderly go_on m loc (unwind vm.frames vm) all (unwind-Caught vm.frames vm h)
  handle-IsOrderly go_on none all h = h
  handle-IsOrderly go_on (some (done v vm)) all h = h
  handle-IsOrderly go_on (some (suspended id args vm)) all h = h
  handle-IsOrderly go_on (some (undefined why)) all h = h

  pub execute-IsOrderly :
      (rounds fuel : ℕ) (vm : Vm C)
      → IsSound host depth vm
      → IsOrderly (execute host rounds fuel vm)
  unfolding execute
  execute-IsOrderly zero fuel vm h = tt
  execute-IsOrderly (suc rounds) fuel vm h =
      handle-IsOrderly (execute host rounds fuel) _ (execute-IsOrderly rounds fuel)
        (run_until_error-IsOrderly fuel vm h)

  started-IsSound :
      (ch : Chunk) (params : List BoxedValue) (boxes : Boxes) (ctx : C)
      → Checked host depth ch
      → IsSound host depth (started host ch params boxes ctx)
  unfolding started
  started-IsSound ch params boxes ctx ok =
      ground (arith, length-resize_locals ch.num_locals params, chunk_ok-entry host depth ch ok)

  -- A handler whose bytecode is checked, with the functions it may call, never misses an operand, a
  -- local or a constant, whatever its parameters, however long it runs, and however many errors it
  -- catches; and where it waits, the awaited value is all that is missing to go on in order.
  pub start-IsOrderly :
      (rounds fuel : ℕ) (ch : Chunk) (params : List BoxedValue) (boxes : Boxes) (ctx : C)
      → Checked host depth ch
      → IsOrderly (start host rounds fuel ch params boxes ctx)
  unfolding start
  start-IsOrderly rounds fuel ch params boxes ctx ok =
      execute-IsOrderly rounds fuel _ (started-IsSound ch params boxes ctx ok)

  -- The same of a handler that goes on with what it waited for.
  pub resume-IsOrderly :
      (rounds fuel : ℕ) (awaited : BoxedValue) (vm : Vm C)
      → IsSound host depth (push null vm)
      → IsOrderly (resume host rounds fuel awaited vm)
  unfolding resume push
  resume-IsOrderly rounds fuel awaited vm h = execute-IsOrderly rounds fuel (push awaited vm) h
