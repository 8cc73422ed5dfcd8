-- ===== src/Vm/Handlers.antt =====
-- `find_handler` and the unwinding of `VM::execute` of src/odio/vm.cpp.
use osodio.Prelude.{
  Bytes, bytes, ℕ, ◌-◌, Bool, ◌||◌, List, [], ◌∷◌, Option, none, some, ltb, leb, if◌then◌else◌,
}
use osodio.Vm.Boxes.{BoxedValue, str, Boxes, new_dict}
use osodio.Vm.Code.{TryRange}
use osodio.Vm.State.{Frame, Vm, resize_stack, resize_locals}

abbrev pub width : TryRange → ℕ
width r = r.finish - r.begin

abbrev pub outside : ℕ → TryRange → Bool
outside pc r = ltb pc r.begin || leb r.finish pc

-- The better one of the best so far and a range that covers: a narrower one.
abbrev pub better : Option TryRange → TryRange → Option TryRange
better none r = some r
better (some best) r = if ltb (width r) (width best) then some r else some best

unfoldable pub find_from : Option TryRange → List TryRange → ℕ → Option TryRange
find_from best [] pc = best
find_from best (r ∷ rs) pc = find_from (if outside pc r then best else better best r) rs pc

unfoldable pub find_handler : List TryRange → ℕ → Option TryRange
find_handler ranges pc = find_from none ranges pc

-- The handler of a frame that failed: its counter is past the instruction.
abbrev pub handler_of : Frame → Option TryRange
handler_of f = find_handler f.chunk.try_ranges (f.pc - 1)

-- `{"message": …}`, in a new box.
unfoldable pub error_value : Bytes → Boxes → BoxedValue × Boxes
error_value message h = new_dict ((bytes "message", str message) ∷ []) h

pub data Unwound (C : Type 0) : Type 0 where
  uncaught : Vm C → Unwound C
  caught : TryRange → Frame → List Frame → Vm C → Unwound C

module _ {C : Type 0} where
  -- The top frames without a handler go, with their operands and locals.
  unfoldable pub unwind : List Frame → Vm C → Unwound C
  unwind [] vm = uncaught (record vm { frames = [] })
  unwind (f ∷ fs) vm =
      let lower = unwind fs (record vm {
        stack = resize_stack f.stack_base vm.stack;
        locals = resize_locals f.locals_base vm.locals;
      }) in
      elim (handler_of f) [ none ↦ lower | some r ↦ caught r f fs vm ]

  -- The handler's frame goes on at the `catch`, with the error as its only operand.
  unfoldable pub deliver : TryRange → Frame → List Frame → Bytes → Vm C → Vm C
  deliver r f fs message vm =
      let (v, h) = error_value message vm.boxes in
      record vm {
        frames = record f { pc = r.catch_pc } ∷ fs;
        stack = v ∷ resize_stack f.stack_base vm.stack;
        boxes = h;
      }
