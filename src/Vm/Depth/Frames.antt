-- ===== src/Vm/Depth/Frames.antt =====
-- Calls, returns, jumps and locals of src/odio/vm.cpp, on frames that are in order.
use osodio.Prelude.{
  ℕ, zero, suc, ◌+◌, ◌-◌, ◌/◌, ◌%◌, ◌≤◌, ◌<◌, ◌≡◌, refl, ap, Bool, true, List, [], ◌∷◌, ◌++◌,
  Option, some, arith, length, replicate, length-append, length-replicate, Option-cases, is_some,
  inl, inr,
}
use osodio.Vm.Boxes.{BoxedValue, null, str, set_at}
use osodio.Vm.Code.{Chunk, function_of, get_elem?}
use osodio.Vm.State.{Frame, Vm, Host, Reply, push, go_to, leave}
use osodio.Vm.Checker.{takes, is_name, chunk_ok}
use osodio.Vm.Operations.{
  replied, run_native, run_method, run_async, enter, run_function, store, jump_to, jump_if_false_to,
  jump_peek_to, push_elem, drop_top, return_top,
}
use osodio.Vm.Depth.{
  Checked, Callers, Leaves, length-resize_stack, length-resize_locals, pop_args-enough,
}

length-set_at {ℓ} : {A : Type ℓ} (i : ℕ) (a : A) (xs : List A) → length (set_at i a xs) ≡ length xs
unfolding set_at
length-set_at i a [] = refl
length-set_at zero a (x ∷ xs) = refl
length-set_at (suc i) a (x ∷ xs) = omega (arith, length-set_at i a xs)

pub get_elem?-some {ℓ} :
    {A : Type ℓ} (xs : List A) (i : ℕ) → i < length xs → (a : A) × (get_elem? xs i ≡ some a)
unfolding get_elem?
get_elem?-some [] i h = absurd (omega arith)
get_elem?-some (x ∷ xs) zero h = (x, refl)
get_elem?-some (x ∷ xs) (suc i) h = get_elem?-some xs i (omega arith)

first_of {ℓ} : {A : Type ℓ} (s : List A) → 1 ≤ length s → (a : A) × (s' : List A) × (s ≡ a ∷ s')
first_of [] h = absurd (omega arith)
first_of (a ∷ s) h = (a, s, refl)

-- The caller gets its value.
pub leave-Leaves :
    {C : Type 0} (host : Host C) (depth : Chunk → ℕ → ℕ) (v : BoxedValue) (g : Frame)
    (fs : List Frame) (vm : Vm C)
    → Callers host depth fs g.stack_base g.locals_base
    → Leaves host depth (leave v (record vm { frames = g ∷ fs }))
unfolding leave
leave-Leaves host depth v g [] vm below = tt
leave-Leaves host depth v g (f ∷ fs) vm below =
    ground (
      arith,
      length-resize_stack g.stack_base vm.stack,
      length-resize_locals g.locals_base vm.locals,
    )

pub chunk_ok-entry :
    {C : Type 0} (host : Host C) (depth : Chunk → ℕ → ℕ) (ch : Chunk)
    → Checked host depth ch
    → depth ch 0 ≡ 0
unfolding chunk_ok
chunk_ok-entry host depth ch ok = ground arith

module _ {C : Type 0} (host : Host C) (depth : Chunk → ℕ → ℕ) (g : Frame) (fs : List Frame)
    (v : Vm C) (k : ℕ) (checked : Checked host depth g.chunk)
    (locals : length v.locals ≡ g.locals_base + g.chunk.num_locals)
    (below : Callers host depth fs g.stack_base g.locals_base) where
  abbrev at : List BoxedValue → Vm C
  at s = record v { frames = g ∷ fs; stack = s }

  pub push_elem-Leaves :
      (o : Option BoxedValue) (s : List BoxedValue)
      → is_some o ≡ true
      → depth g.chunk g.pc ≡ suc k
      → length s ≡ g.stack_base + k
      → Leaves host depth (push_elem host o (at s))
  unfolding push_elem push
  push_elem-Leaves o s there deep e = ground arith

  pub store-Leaves :
      (slot : ℕ) (s : List BoxedValue)
      → slot < length v.locals
      → depth g.chunk g.pc ≡ k
      → length s ≡ g.stack_base + suc k
      → Leaves host depth (store host slot (at s))
  unfolding store
  store-Leaves slot [] h deep e = absurd (omega arith)
  store-Leaves slot (a ∷ s) h deep e = ground (arith, length-set_at slot a v.locals)

  pub drop_top-Leaves :
      (s : List BoxedValue)
      → depth g.chunk g.pc ≡ k
      → length s ≡ g.stack_base + suc k
      → Leaves host depth (drop_top host (at s))
  unfolding drop_top
  drop_top-Leaves [] deep e = absurd (omega arith)
  drop_top-Leaves (a ∷ s) deep e = ground arith

  pub return_top-Leaves :
      (s : List BoxedValue)
      → length s ≡ g.stack_base + suc k
      → Leaves host depth (return_top host (at s))
  unfolding return_top
  return_top-Leaves [] e = absurd (omega arith)
  return_top-Leaves (a ∷ s) e = leave-Leaves host depth a g fs (record v { stack = s }) below

  pub jump_to-Leaves :
      (target : ℕ) (s : List BoxedValue)
      → depth g.chunk target ≡ k
      → length s ≡ g.stack_base + k
      → Leaves host depth (jump_to host target g (at s))
  unfolding jump_to go_to
  jump_to-Leaves target s deep e = ground arith

  pub jump_if_false_to-Leaves :
      (target : ℕ) (s : List BoxedValue)
      → depth g.chunk target ≡ k
      → depth g.chunk g.pc ≡ k
      → length s ≡ g.stack_base + suc k
      → Leaves host depth (jump_if_false_to host target (at s))
  unfolding jump_if_false_to go_to
  jump_if_false_to-Leaves target [] there deep e = absurd (omega arith)
  jump_if_false_to-Leaves target (a ∷ s) there deep e = ground arith

  pub jump_peek_to-Leaves :
      (when : Bool) (target : ℕ) (s : List BoxedValue)
      → depth g.chunk target ≡ suc k
      → depth g.chunk g.pc ≡ k
      → length s ≡ g.stack_base + suc k
      → Leaves host depth (jump_peek_to host when target (at s))
  unfolding jump_peek_to go_to
  jump_peek_to-Leaves when target [] there deep e = absurd (omega arith)
  jump_peek_to-Leaves when target (a ∷ s) there deep e = ground arith

  replied-Leaves :
      (r : Reply C) (s t : List BoxedValue)
      → depth g.chunk g.pc ≡ suc k
      → length s ≡ g.stack_base + k
      → Leaves host depth (replied host r s (at t))
  unfolding replied push
  replied-Leaves r s t deep e = ground arith

  pub run_native-Leaves :
      (operand : ℕ) (s : List BoxedValue)
      → depth g.chunk g.pc ≡ suc k
      → length s ≡ g.stack_base + (operand % 256 + k)
      → Leaves host depth (run_native host operand (at s))
  unfolding run_native
  run_native-Leaves operand s deep e =
      let (vs, rest, e₁, p, q) = pop_args-enough (operand % 256) s [] (omega arith) in
      rw (run_native, e₁) (replied-Leaves _ rest s deep (omega arith))

  pub run_async-Leaves :
      (operand : ℕ) (s : List BoxedValue)
      → depth g.chunk g.pc ≡ suc k
      → length s ≡ g.stack_base + (operand % 256 + k)
      → Leaves host depth (run_async host operand (at s))
  unfolding run_async push
  run_async-Leaves operand s deep e =
      let (vs, rest, e₁, p, q) = pop_args-enough (operand % 256) s [] (omega arith) in ground arith

  pub run_method-Leaves :
      (name : Option BoxedValue) (argc : ℕ) (s : List BoxedValue)
      → is_name name ≡ true
      → depth g.chunk g.pc ≡ suc k
      → length s ≡ g.stack_base + (suc argc + k)
      → Leaves host depth (run_method host name argc (at s))
  unfolding run_method
  run_method-Leaves (some (str name)) argc s named deep e =
      let (vs, rest, e₁, p, q) = pop_args-enough argc s [] (omega arith) in
      let (recv, s', e₂) = first_of rest (omega arith) in
      rw (run_method, e₁, e₂) (replied-Leaves _ s' s deep (omega (arith, ap length e₂)))
  run_method-Leaves _ argc s named deep e = cc

  enter-Leaves :
      (callee : Chunk) (vs s t : List BoxedValue)
      → length vs ≤ callee.num_locals
      → Checked host depth callee
      → depth callee 0 ≡ 0
      → depth g.chunk g.pc ≡ suc k
      → length s ≡ g.stack_base + k
      → Leaves host depth (enter host callee vs s (at t))
  unfolding enter
  enter-Leaves callee vs s t fits ok zero_depth deep e = ground (
    arith,
    length-append v.locals vs,
    length-append (v.locals ++ vs) (replicate (callee.num_locals - length vs) null),
    length-replicate (callee.num_locals - length vs) null,
  )

  pub run_function-Leaves :
      (operand : ℕ) (s : List BoxedValue)
      → ((index : ℕ) (callee : Chunk)
          → function_of host.functions index ≡ some callee
          → Checked host depth callee)
      → takes (operand % 256) (function_of host.functions (operand / 256)) ≡ true
      → depth g.chunk g.pc ≡ suc k
      → length s ≡ g.stack_base + (operand % 256 + k)
      → Leaves host depth (run_function host operand (at s))
  unfolding run_function
  run_function-Leaves operand s all fits deep e =
      elim (Option-cases (function_of host.functions (operand / 256))) [
        | inl none_there ↦ ground arith
        | inr (callee, there) ↦
            let (vs, rest, e₁, p, q) = pop_args-enough (operand % 256) s [] (omega arith) in
            let ok : Checked host depth callee = all (operand / 256) callee there in
            let entered =
              enter-Leaves callee vs rest s (ground arith) ok (chunk_ok-entry host depth callee ok)
                deep (omega arith) in
            ground arith
      ]
