-- ===== src/Vm/Depth.antt =====
-- Where the operands and the locals of each frame of src/odio/vm.cpp lie, on checked bytecode.
pub mod Frames
pub mod Instructions
pub mod Runs
use osodio.Prelude.{
  ℕ, zero, suc, ◌+◌, ◌-◌, ◌≤◌, ◌≡◌, refl, Bool, true, List, [], ◌∷◌, ◌++◌, some, none, arith,
  length, take, drop, replicate, length-append, length-drop, length-replicate, leb,
}
use osodio.Vm.Boxes.{BoxedValue, null, Boxes}
use osodio.Vm.Code
use osodio.Vm.Code.{Op, Chunk, function_of}
use osodio.Vm.Operations.{generic, on_longs, specialised, equality, gather}
use osodio.Vm.Arithmetic.{Answer, value, refused, trap}
use osodio.Vm.State.{
  Frame, Vm, Host, Outcome, next, failed, finished, waits, fault, missing, overflow, endless,
  pop_args, push, answer, unary, binary, ternary, resize_stack, resize_locals,
}
use osodio.Vm.Checker.{chunk_ok}

module _ {C : Type 0} (host : Host C) (depth : Chunk → ℕ → ℕ) where
  abbrev pub Checked : Chunk → Type 0
  Checked ch = chunk_ok host.functions (depth ch) ch ≡ true

  -- A frame that has the top: `m` locals, and its operands among the `n` there are.
  abbrev pub Holds : Frame → ℕ → ℕ → Type 0
  Holds f n m = Checked f.chunk × (f.stack_base ≤ n) × (m ≡ f.locals_base + f.chunk.num_locals)

  -- The frames that wait for a call, over `n` operands: the value of the call is the next one.
  abbrev pub Callers : List Frame → ℕ → ℕ → Type 0
  Callers [] n m = Unit
  Callers (f ∷ fs) n m =
      Holds f n m
      × (suc n ≡ f.stack_base + depth f.chunk f.pc)
      × Callers fs f.stack_base f.locals_base

  -- Between two instructions.
  abbrev pub Running : List Frame → ℕ → ℕ → Type 0
  Running [] n m = Unit
  Running (f ∷ fs) n m =
      Holds f n m × (n ≡ f.stack_base + depth f.chunk f.pc) × Callers fs f.stack_base f.locals_base

  -- At an error the operands of the top frame are not counted.
  abbrev pub Failing : List Frame → ℕ → ℕ → Type 0
  Failing [] n m = Unit
  Failing (f ∷ fs) n m = Holds f n m × Callers fs f.stack_base f.locals_base

  abbrev pub IsSound : Vm C → Type 0
  IsSound vm = Running vm.frames (length vm.stack) (length vm.locals)

  abbrev pub IsFailing : Vm C → Type 0
  IsFailing vm = Failing vm.frames (length vm.stack) (length vm.locals)

  -- What an instruction may leave: nothing that is missing.
  abbrev pub Leaves : Outcome C → Type 0
  Leaves (next vm) = IsSound vm
  Leaves (failed m vm) = IsFailing vm
  Leaves (finished v vm) = Unit
  Leaves (waits id args vm) = IsSound (push null vm)
  Leaves (fault missing) = ⊥
  Leaves (fault overflow) = Unit
  Leaves (fault endless) = Unit

pub length-resize_stack : (n : ℕ) (s : List BoxedValue) → length (resize_stack n s) ≡ n
unfolding resize_stack
length-resize_stack n s = ground (
  arith,
  length-drop (length s - n) s,
  length-append (replicate (n - length s) null) s,
  length-replicate (n - length s) null,
)

length-take {ℓ} : {A : Type ℓ} (n : ℕ) (xs : List A) → n ≤ length xs → length (take n xs) ≡ n
length-take zero xs h = refl
length-take (suc n) [] h = absurd (omega arith)
length-take (suc n) (x ∷ xs) h = omega (arith, length-take n xs)

pub length-resize_locals : (n : ℕ) (l : List BoxedValue) → length (resize_locals n l) ≡ n
unfolding resize_locals
length-resize_locals n l = ground (
  arith,
  length-take n l,
  length-append l (replicate (n - length l) null),
  length-replicate (n - length l) null,
)

-- Enough operands are popped, and are all arguments.
pub pop_args-enough :
    (n : ℕ) (s args : List BoxedValue)
    → n ≤ length s
    → (vs : List BoxedValue) × (rest : List BoxedValue) × (pop_args n s args ≡ some (vs, rest))
      × (length rest + n ≡ length s)
      × (length vs ≡ n + length args)
unfolding pop_args
pop_args-enough zero s args h = (args, s, refl, omega arith, omega arith)
pop_args-enough (suc n) [] args h = absurd (omega arith)
pop_args-enough (suc n) (v ∷ s) args h =
    let (vs, rest, e, p, q) = pop_args-enough n s (v ∷ args) (omega arith) in
    (vs, rest, e, omega arith, omega arith)

-- Where an instruction of a frame has left `k + 1` operands and the next one finds as many.
module _ {C : Type 0} (host : Host C) (depth : Chunk → ℕ → ℕ) (g : Frame) (fs : List Frame)
    (v : Vm C) (k : ℕ) (checked : Checked host depth g.chunk)
    (locals : length v.locals ≡ g.locals_base + g.chunk.num_locals)
    (below : Callers host depth fs g.stack_base g.locals_base)
    (deep : depth g.chunk g.pc ≡ suc k) where
  answer-Leaves :
      (a : Answer) (s t : List BoxedValue)
      → length s ≡ g.stack_base + k
      → Leaves host depth (answer a s (record v { frames = g ∷ fs; stack = t }))
  unfolding answer
  answer-Leaves a s t e = ground arith

  pub unary-Leaves :
      (f : BoxedValue → Boxes → Answer) (s : List BoxedValue)
      → length s ≡ g.stack_base + suc k
      → Leaves host depth (unary f (record v { frames = g ∷ fs; stack = s }))
  unfolding unary
  unary-Leaves f [] e = absurd (omega arith)
  unary-Leaves f (a ∷ s) e = answer-Leaves (f a v.boxes) s (a ∷ s) (omega arith)

  pub binary-Leaves :
      (f : BoxedValue → BoxedValue → Boxes → Answer) (s : List BoxedValue)
      → length s ≡ g.stack_base + suc (suc k)
      → Leaves host depth (binary f (record v { frames = g ∷ fs; stack = s }))
  unfolding binary
  binary-Leaves f [] e = absurd (omega arith)
  binary-Leaves f (b ∷ []) e = absurd (omega arith)
  binary-Leaves f (b ∷ a ∷ s) e = answer-Leaves (f a b v.boxes) s (b ∷ a ∷ s) (omega arith)

  pub ternary-Leaves :
      (f : BoxedValue → BoxedValue → BoxedValue → Boxes → Answer) (s : List BoxedValue)
      → length s ≡ g.stack_base + suc (suc (suc k))
      → Leaves host depth (ternary f (record v { frames = g ∷ fs; stack = s }))
  unfolding ternary
  ternary-Leaves f [] e = absurd (omega arith)
  ternary-Leaves f (c ∷ []) e = absurd (omega arith)
  ternary-Leaves f (c ∷ b ∷ []) e = absurd (omega arith)
  ternary-Leaves f (c ∷ b ∷ a ∷ s) e =
      answer-Leaves (f a b c v.boxes) s (c ∷ b ∷ a ∷ s) (omega arith)

  pub gather-Leaves :
      (n : ℕ) (f : List BoxedValue → Boxes → Answer) (s : List BoxedValue)
      → length s ≡ g.stack_base + (n + k)
      → Leaves host depth (gather host n f (record v { frames = g ∷ fs; stack = s }))
  unfolding gather
  gather-Leaves n f s e =
      let (vs, rest, e₁, p, q) = pop_args-enough n s [] (omega arith) in
      rw (gather, e₁) (answer-Leaves (f vs v.boxes) rest s (omega arith))

  pub specialised-Leaves :
      (op : Op) (s : List BoxedValue)
      → length s ≡ g.stack_base + suc (suc k)
      → Leaves host depth (generic host op (record v { frames = g ∷ fs; stack = s }))
      → Leaves host depth (specialised host op (record v { frames = g ∷ fs; stack = s }))
  unfolding specialised
  specialised-Leaves op (BoxedValue.integer y ∷ BoxedValue.integer x ∷ s) e h =
      answer-Leaves (on_longs host op x y v.boxes) s _ (omega (arith, e))
  specialised-Leaves op s e h = ground arith

  pub generic-Leaves :
      (op : Op) (s : List BoxedValue)
      → length s ≡ g.stack_base + suc (suc k)
      → Leaves host depth (generic host op (record v { frames = g ∷ fs; stack = s }))
  unfolding generic
  generic-Leaves Code.add s e = binary-Leaves _ s e
  generic-Leaves Code.add_int s e = binary-Leaves _ s e
  generic-Leaves Code.sub s e = binary-Leaves _ s e
  generic-Leaves Code.sub_int s e = binary-Leaves _ s e
  generic-Leaves Code.mul s e = binary-Leaves _ s e
  generic-Leaves Code.mul_int s e = binary-Leaves _ s e
  generic-Leaves Code.div s e = binary-Leaves _ s e
  generic-Leaves Code.modulo s e = binary-Leaves _ s e
  generic-Leaves _ s e = binary-Leaves _ s e

  pub equality-Leaves :
      (same : Bool) (s : List BoxedValue)
      → length s ≡ g.stack_base + suc (suc k)
      → Leaves host depth (equality host same (record v { frames = g ∷ fs; stack = s }))
  unfolding equality
  equality-Leaves same s e = ground arith
