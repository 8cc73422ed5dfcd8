-- ===== src/Vm/Moves.antt =====
-- How one instruction of src/odio/vm.cpp changes the frames: the top frame goes on, a jump back is
-- counted, a call puts a frame on top, and a return takes one away.
pub mod Instructions
use osodio.Prelude.{
  ℕ, suc, ◌+◌, ◌-◌, ◌≤◌, ◌<◌, ◌≡◌, refl, Bool, true, false, List, [], ◌∷◌, ◌++◌, Option, none, some,
  arith, length, leb, ltb, if◌then◌else◌, Bool-cases, Option-cases, inl, inr,
}
use osodio.Vm.Boxes.{BoxedValue, null, integer, str, Boxes, boxed_truthy}
use osodio.Vm.Code
use osodio.Vm.Code.{Op, Chunk, function_of}
use osodio.Vm.Arithmetic.{Answer, value, refused, trap, equals}
use osodio.Vm.State.{
  Frame, Vm, Reply, Host, Outcome, next, failed, finished, waits, fault, pop_args, push, go_to,
  answer, unary, binary, ternary, leave,
}
use osodio.Vm.Operations.{
  step_limit, max_frames, generic, on_longs, specialised, equality, jump_to, jump_if_false_to,
  jump_peek_to, replied, run_native, run_method, run_async, enter, run_function, store, push_elem,
  drop_top, return_top, on_member, gather,
}

module _ {C : Type 0} (host : Host C) (g : Frame) (fs : List Frame) (steps : ℕ) where
  -- `g` is the top frame, past the instruction, over `fs`.
  pub data Move (vm : Vm C) : Type 0 where
    ahead : (t : ℕ) → g.pc ≤ t → vm.frames ≡ record g { pc = t } ∷ fs → vm.steps ≡ steps → Move vm
    back :
        (t : ℕ)
        → vm.frames ≡ record g { pc = t } ∷ fs
        → vm.steps ≡ suc steps
        → suc steps ≤ step_limit
        → Move vm
    called :
        (index : ℕ) (f : Frame)
        → function_of host.functions index ≡ some f.chunk
        → f.pc ≡ 0
        → suc (length fs) < max_frames
        → vm.frames ≡ f ∷ g ∷ fs
        → vm.steps ≡ steps
        → Move vm
    returned : vm.frames ≡ fs → vm.steps ≡ steps → Move vm

  -- Of the outcomes, a machine that goes on has made a move, and one that failed keeps its frames.
  abbrev pub Moves : Outcome C → Type 0
  Moves (next vm) = Move vm
  Moves (failed m vm) = vm.frames ≡ g ∷ fs
  Moves (finished v vm) = Unit
  Moves (waits id args vm) = vm.frames ≡ g ∷ fs
  Moves (fault why) = Unit

module _ {C : Type 0} (host : Host C) (g : Frame) (fs : List Frame) (v : Vm C) where
  abbrev at : List BoxedValue → Vm C
  at s = record v { frames = g ∷ fs; stack = s }

  abbrev Fine : Outcome C → Type 0
  Fine = Moves host g fs v.steps

  answer-Moves : (a : Answer) (s t : List BoxedValue) → Fine (answer a s (at t))
  unfolding answer
  answer-Moves (value b h) s t = ahead g.pc (omega arith) refl refl
  answer-Moves (refused m) s t = refl
  answer-Moves trap s t = tt

  pub unary-Moves : (f : BoxedValue → Boxes → Answer) (s : List BoxedValue) → Fine (unary f (at s))
  unfolding unary
  unary-Moves f [] = tt
  unary-Moves f (a ∷ s) = answer-Moves (f a v.boxes) s (a ∷ s)

  pub binary-Moves :
      (f : BoxedValue → BoxedValue → Boxes → Answer) (s : List BoxedValue) → Fine (binary f (at s))
  unfolding binary
  binary-Moves f [] = tt
  binary-Moves f (b ∷ []) = tt
  binary-Moves f (b ∷ a ∷ s) = answer-Moves (f a b v.boxes) s (b ∷ a ∷ s)

  pub ternary-Moves :
      (f : BoxedValue → BoxedValue → BoxedValue → Boxes → Answer) (s : List BoxedValue)
      → Fine (ternary f (at s))
  unfolding ternary
  ternary-Moves f [] = tt
  ternary-Moves f (c ∷ []) = tt
  ternary-Moves f (c ∷ b ∷ []) = tt
  ternary-Moves f (c ∷ b ∷ a ∷ s) = answer-Moves (f a b c v.boxes) s (c ∷ b ∷ a ∷ s)

  pub gather-Moves :
      (n : ℕ) (f : List BoxedValue → Boxes → Answer) (s : List BoxedValue)
      → Fine (gather host n f (at s))
  unfolding gather
  gather-Moves n f s = elim (Option-cases (pop_args n s [])) [
    | inl few ↦ rw (gather, few) tt
    | inr ((args, rest), there) ↦ rw (gather, there) (answer-Moves (f args v.boxes) rest s)
  ]

  pub generic-Moves : (op : Op) (s : List BoxedValue) → Fine (generic host op (at s))
  unfolding generic
  generic-Moves Code.add s = binary-Moves _ s
  generic-Moves Code.add_int s = binary-Moves _ s
  generic-Moves Code.sub s = binary-Moves _ s
  generic-Moves Code.sub_int s = binary-Moves _ s
  generic-Moves Code.mul s = binary-Moves _ s
  generic-Moves Code.mul_int s = binary-Moves _ s
  generic-Moves Code.div s = binary-Moves _ s
  generic-Moves Code.modulo s = binary-Moves _ s
  generic-Moves _ s = binary-Moves _ s

  pub specialised-Moves : (op : Op) (s : List BoxedValue) → Fine (specialised host op (at s))
  unfolding specialised
  specialised-Moves op (integer y ∷ integer x ∷ s) =
      answer-Moves (on_longs host op x y v.boxes) s (integer y ∷ integer x ∷ s)
  specialised-Moves op s = generic-Moves op s

  pub equality-Moves : (same : Bool) (s : List BoxedValue) → Fine (equality host same (at s))
  unfolding equality
  equality-Moves same (b ∷ a ∷ s) =
      elim (Option-cases (equals host.floats host.depth v.boxes a b)) [
        | inl endless ↦ rw (equality, endless) tt
        | inr (e, there) ↦ rw (equality, there) (ahead g.pc (omega arith) refl refl)
      ]
  equality-Moves same (b ∷ []) = tt
  equality-Moves same [] = tt

  pub push_elem-Moves :
      (o : Option BoxedValue) (s : List BoxedValue) → Fine (push_elem host o (at s))
  unfolding push_elem push
  push_elem-Moves none s = tt
  push_elem-Moves (some a) s = ahead g.pc (omega arith) refl refl

  pub drop_top-Moves : (s : List BoxedValue) → Fine (drop_top host (at s))
  unfolding drop_top
  drop_top-Moves [] = tt
  drop_top-Moves (a ∷ s) = ahead g.pc (omega arith) refl refl

  pub store-Moves : (slot : ℕ) (s : List BoxedValue) → Fine (store host slot (at s))
  unfolding store
  store-Moves slot [] = tt
  store-Moves slot (a ∷ s) = elim (Bool-cases (ltb slot (length v.locals))) [
    | inl inside ↦ rw (store, inside) (ahead g.pc (omega arith) refl refl)
    | inr past ↦ rw (store, past) tt
  ]
