-- ===== src/Vm/State.antt =====
-- The state of a `VM` of include/odio/vm.hpp, what an instruction leaves, and the moves on the
-- stacks.
use osodio.Prelude.{
  Bytes, ℕ, zero, suc, ◌-◌, List, [], ◌∷◌, ◌++◌, Option, none, some, leb, if◌then◌else◌, length,
  take, drop, replicate,
}
use osodio.Vm.Boxes.{BoxedValue, null, Boxes}
use osodio.Vm.Words.{FloatOps}
use osodio.Vm.Code.{Chunk}
use osodio.Vm.Arithmetic.{Answer, value, refused, trap}

pub record Frame : Type 0 where
  pub chunk : Chunk
  pub pc : ℕ
  pub locals_base : ℕ
  pub stack_base : ℕ

-- The frames and the operands with their top first, the locals from the first slot on. `steps` is
-- the counter of `run_until_error`, and `ctx` the `NativeCtx`.
pub record Vm (C : Type 0) : Type 0 where
  pub frames : List Frame
  pub stack : List BoxedValue
  pub locals : List BoxedValue
  pub boxes : Boxes
  pub ctx : C
  pub steps : ℕ

-- What a native function or a method leaves; it failed if the error is not empty.
pub record Reply (C : Type 0) : Type 0 where
  pub error : Bytes
  pub out : BoxedValue
  pub boxes : Boxes
  pub ctx : C

-- What the machine is given: the arithmetic of `double`, how deep `equals` may go, the table of
-- functions, the native functions by their number, and the methods by receiver and name.
pub record Host (C : Type 0) : Type 0 where
  pub floats : FloatOps
  pub depth : ℕ
  pub functions : Option (List Chunk)
  pub native : ℕ → List BoxedValue → Boxes → C → Reply C
  pub method : BoxedValue → Bytes → List BoxedValue → Boxes → C → Reply C

-- What the source leaves undefined: an operand, a slot or a constant that is not there, an
-- overflow of a `long long`, and an `equals` without end.
pub data Fault : Type 0 where
  missing overflow endless : Fault

pub data Outcome (C : Type 0) : Type 0 where
  next : Vm C → Outcome C
  failed : Bytes → Vm C → Outcome C
  finished : BoxedValue → Vm C → Outcome C
  waits : (await_id : ℕ) → (await_args : List BoxedValue) → Vm C → Outcome C
  fault : Fault → Outcome C

-- `resize` of the operands, and of the locals.
unfoldable pub resize_stack : ℕ → List BoxedValue → List BoxedValue
resize_stack n s =
    if leb n (length s) then drop (length s - n) s else replicate (n - length s) null ++ s

unfoldable pub resize_locals : ℕ → List BoxedValue → List BoxedValue
resize_locals n l = if leb n (length l) then take n l else l ++ replicate (n - length l) null

-- The last `n` operands, in the order they were pushed, and those below them.
unfoldable pub pop_args :
    ℕ → List BoxedValue → List BoxedValue → Option (List BoxedValue × List BoxedValue)
pop_args zero s args = some (args, s)
pop_args (suc n) [] args = none
pop_args (suc n) (v ∷ s) args = pop_args n s (v ∷ args)

module _ {C : Type 0} where
  unfoldable pub push : BoxedValue → Vm C → Vm C
  push v vm = record vm { stack = v ∷ vm.stack }

  -- The program counter of the top frame.
  unfoldable pub go_to : ℕ → Vm C → Vm C
  go_to pc vm = elim vm.frames [
    | [] ↦ vm
    | f ∷ fs ↦ record vm { frames = record f { pc = pc } ∷ fs }
  ]

  unfoldable pub answer : Answer → List BoxedValue → Vm C → Outcome C
  answer (value v h) s vm = next (record vm { stack = v ∷ s; boxes = h })
  answer (refused m) s vm = failed m (record vm { stack = s })
  answer trap s vm = fault overflow

  -- An operator on the top operand, or on the top two or three.
  unfoldable pub unary : (BoxedValue → Boxes → Answer) → Vm C → Outcome C
  unary f vm = elim vm.stack [ a ∷ s ↦ answer (f a vm.boxes) s vm | _ ↦ fault missing ]

  unfoldable pub binary : (BoxedValue → BoxedValue → Boxes → Answer) → Vm C → Outcome C
  binary f vm = elim vm.stack [ b ∷ a ∷ s ↦ answer (f a b vm.boxes) s vm | _ ↦ fault missing ]

  unfoldable pub ternary :
      (BoxedValue → BoxedValue → BoxedValue → Boxes → Answer) → Vm C → Outcome C
  ternary f vm = elim vm.stack [
    | c ∷ b ∷ a ∷ s ↦ answer (f a b c vm.boxes) s vm
    | _ ↦ fault missing
  ]

  -- The end of the top frame with a value: for the caller, or of the whole run.
  unfoldable pub leave : BoxedValue → Vm C → Outcome C
  leave v vm = elim vm.frames [
    | [] ↦ finished v vm
    | f ∷ [] ↦ finished v (record vm { frames = [] })
    | f ∷ g ∷ fs ↦ next (record vm {
      frames = g ∷ fs;
      stack = v ∷ resize_stack f.stack_base vm.stack;
      locals = resize_locals f.locals_base vm.locals;
    })
  ]
