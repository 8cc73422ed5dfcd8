-- ===== src/Vm/Run.antt =====
-- `run_until_error`, `execute`, `start` and `resume` of src/odio/vm.cpp.
use osodio.Prelude.{Bytes, ℕ, zero, suc, ◌-◌, List, [], ◌∷◌, Option, none, some}
use osodio.Vm.Boxes.{BoxedValue, Boxes}
use osodio.Vm.Code.{SourceLoc, Chunk, get_elem?}
use osodio.Vm.State.{
  Vm, Host, Fault, Outcome, next, failed, finished, waits, fault, resize_locals, push,
}
use osodio.Vm.Step.{step}
use osodio.Vm.Handlers.{Unwound, uncaught, caught, unwind, deliver}

-- `VM::Result`, with the machine that is left, or what is undefined.
pub data Result (C : Type 0) : Type 0 where
  done : BoxedValue → Vm C → Result C
  error : Bytes → Option SourceLoc → Vm C → Result C
  suspended : (await_id : ℕ) → (await_args : List BoxedValue) → Vm C → Result C
  undefined : Fault → Result C

module _ {C : Type 0} where
  -- `in.loc` of the instruction that failed.
  abbrev error_loc : Vm C → Option SourceLoc
  error_loc vm = elim vm.frames [
    | [] ↦ none
    | f ∷ fs ↦ elim (get_elem? f.chunk.code (f.pc - 1)) [ none ↦ none | some i ↦ some i.loc ]
  ]

  -- What an instruction leaves is the end of the run, or a machine to go on with.
  unfoldable pub proceed : (Vm C → Option (Result C)) → Outcome C → Option (Result C)
  proceed go_on (next vm) = go_on vm
  proceed go_on (failed m vm) = some (error m (error_loc vm) vm)
  proceed go_on (finished v vm) = some (done v vm)
  proceed go_on (waits id args vm) = some (suspended id args vm)
  proceed go_on (fault why) = some (undefined why)

  -- An error is taken by a frame that covers it, or is what the whole run gives.
  unfoldable pub take_error :
      (Vm C → Option (Result C)) → Bytes → Option SourceLoc → Unwound C → Option (Result C)
  take_error go_on m loc (uncaught vm) = some (error m loc vm)
  take_error go_on m loc (caught r f fs vm) = go_on (deliver r f fs m vm)

  unfoldable pub handle : (Vm C → Option (Result C)) → Option (Result C) → Option (Result C)
  handle go_on (some (error m loc vm)) = take_error go_on m loc (unwind vm.frames vm)
  handle go_on other = other

module _ {C : Type 0} (host : Host C) where
  -- The `while` of `run_until_error`, one instruction for each unit of fuel.
  unfoldable pub run : ℕ → Vm C → Option (Result C)
  run zero vm = none
  run (suc fuel) vm = proceed (run fuel) (step host vm)

  unfoldable pub run_until_error : ℕ → Vm C → Option (Result C)
  run_until_error fuel vm = run fuel (record vm { steps = 0 })

  -- The `while` of `execute`, one round for each error that a `try` takes.
  unfoldable pub execute : (rounds : ℕ) → (fuel : ℕ) → Vm C → Option (Result C)
  execute zero fuel vm = none
  execute (suc rounds) fuel vm = handle (execute rounds fuel) (run_until_error fuel vm)

  unfoldable pub started : Chunk → List BoxedValue → Boxes → C → Vm C
  started chunk params boxes ctx = record {
    frames = record { chunk = chunk; pc = 0; locals_base = 0; stack_base = 0 } ∷ [];
    stack = [];
    locals = resize_locals chunk.num_locals params;
    boxes = boxes;
    ctx = ctx;
    steps = 0;
  }

  unfoldable pub start : (rounds fuel : ℕ) → Chunk → List BoxedValue → Boxes → C → Option (Result C)
  start rounds fuel chunk params boxes ctx = execute rounds fuel (started chunk params boxes ctx)

  unfoldable pub resume : (rounds fuel : ℕ) → BoxedValue → Vm C → Option (Result C)
  resume rounds fuel awaited vm = execute rounds fuel (push awaited vm)
