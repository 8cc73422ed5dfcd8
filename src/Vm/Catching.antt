-- ===== src/Vm/Catching.antt =====
-- An error inside a `try`, in the function that failed or in one that called it: `execute` of
-- src/odio/vm.cpp.
use osodio.Prelude.{
  Bytes, ℕ, zero, suc, ◌+◌, ◌-◌, ◌≤◌, ◌≡◌, refl, ap, sym, List, [], ◌∷◌, ◌++◌, Option, none, some,
  arith, All, length, take, drop, drop-drop, le→leb,
}
use mathlib.Core.Path.{subst}
use osodio.Vm.Boxes.{BoxedValue}
use osodio.Vm.Code.{SourceLoc, Chunk, TryRange}
use osodio.Vm.State.{Frame, Vm, Host, resize_stack, resize_locals}
use osodio.Vm.Handlers.{handler_of, caught, unwind, deliver, error_value}
use osodio.Vm.Run.{error, take_error, handle, run_until_error, execute}
use osodio.Vm.Depth.{Failing, IsSound, length-resize_stack, length-resize_locals}
use osodio.Vm.Depth.Instructions.{TableChecked}
use osodio.Vm.Depth.Runs.{popped, run_until_error-IsOrderly}

module _ {ℓ} {A : Type ℓ} where
  take-take : (m n : ℕ) (xs : List A) → m ≤ n → take m (take n xs) ≡ take m xs
  take-take zero n xs h = refl
  take-take (suc m) zero xs h = absurd (omega arith)
  take-take (suc m) (suc n) [] h = refl
  take-take (suc m) (suc n) (x ∷ xs) h = ap (λ t. x ∷ t) (take-take m n xs (omega arith))

  take-length : (n : ℕ) (xs : List A) → length xs ≡ n → take n xs ≡ xs
  take-length zero [] h = refl
  take-length (suc n) [] h = refl
  take-length zero (x ∷ xs) h = absurd (omega arith)
  take-length (suc n) (x ∷ xs) h = ap (λ t. x ∷ t) (take-length n xs (omega arith))

resize_stack-drop :
    (n : ℕ) (s : List BoxedValue) → n ≤ length s → resize_stack n s ≡ drop (length s - n) s
unfolding resize_stack
resize_stack-drop n s h = rw (le→leb n (length s) h)

resize_stack-resize_stack :
    (m n : ℕ) (s : List BoxedValue)
    → m ≤ n
    → n ≤ length s
    → resize_stack m (resize_stack n s) ≡ resize_stack m s
resize_stack-resize_stack m n s h k =
    let cut = length-resize_stack n s in
    rw
      (
        resize_stack-drop m (resize_stack n s) (omega arith),
        cut,
        resize_stack-drop n s k,
        resize_stack-drop m s (omega arith),
        drop-drop,
      )
      (ap (λ t. drop t s) (omega arith))

resize_locals-take : (n : ℕ) (l : List BoxedValue) → n ≤ length l → resize_locals n l ≡ take n l
unfolding resize_locals
resize_locals-take n l h = rw (le→leb n (length l) h)

module _ {C : Type 0} (host : Host C) (depth : Chunk → ℕ → ℕ)
    (table : TableChecked host depth) where
  abbrev scope : Frame → ℕ
  scope f = f.locals_base + f.chunk.num_locals

  record Catches (r : TryRange) (f : Frame) (below fs : List Frame) (vm : Vm C) : Type 0 where
    stack : List BoxedValue
    locals : List BoxedValue
    unwound : unwind fs vm ≡ caught r f below (record vm { stack = stack; locals = locals })
    deep : f.stack_base ≤ length vm.stack
    bottom : resize_stack f.stack_base stack ≡ resize_stack f.stack_base vm.stack
    wide : scope f ≤ length vm.locals
    own : locals ≡ take (scope f) vm.locals

  unwind-Catches :
      (r : TryRange) (f : Frame) (below above : List Frame) (vm : Vm C)
      → Failing host depth (above ++ f ∷ below) (length vm.stack) (length vm.locals)
      → All (λ g. handler_of g ≡ none) above
      → handler_of f ≡ some r
      → Catches r f below (above ++ f ∷ below) vm
  unfolding unwind
  unwind-Catches r f below [] vm ((checked, base, locals), rest) none_above here = record {
    stack = vm.stack;
    locals = vm.locals;
    unwound = rw (unwind, here) refl;
    deep = base;
    bottom = refl;
    wide = omega arith;
    own = sym (take-length (scope f) vm.locals locals);
  }
  unwind-Catches r f below (g ∷ above) vm ((checked, base, locals), rest) (not_here, none_above)
        here =
      let s = resize_stack g.stack_base vm.stack in
      let l = resize_locals g.locals_base vm.locals in
      let inner =
        unwind-Catches r f below above (record vm { stack = s; locals = l })
          (popped host depth table (above ++ f ∷ below) s l g.stack_base g.locals_base
            (length-resize_stack g.stack_base vm.stack)
            (length-resize_locals g.locals_base vm.locals) rest)
          none_above here in
      let deep : f.stack_base ≤ g.stack_base =
        omega (arith, inner.deep, length-resize_stack g.stack_base vm.stack) in
      let wide : scope f ≤ g.locals_base =
        omega (arith, inner.wide, length-resize_locals g.locals_base vm.locals) in
      record {
        stack = inner.stack;
        locals = inner.locals;
        unwound = rw (unwind, not_here) inner.unwound;
        deep = omega arith;
        bottom =
            rw inner.bottom
              (resize_stack-resize_stack f.stack_base g.stack_base vm.stack deep base);
        wide = omega arith;
        own =
            rw (inner.own, resize_locals-take g.locals_base vm.locals (omega arith))
              (take-take (scope f) g.locals_base vm.locals wide);
      }

  -- The machine at the `catch`: the frame that takes the error is on top, with its own locals as they
  -- were, and the error is its only operand.
  abbrev pub landed : TryRange → Frame → List Frame → Bytes → Vm C → Vm C
  landed r f below m failing =
      let (v, h) = error_value m failing.boxes in
      record failing {
        frames = record f { pc = r.catch_pc } ∷ below;
        stack = v ∷ drop (length failing.stack - f.stack_base) failing.stack;
        locals = take (f.locals_base + f.chunk.num_locals) failing.locals;
        boxes = h;
      }

  deliver-landed :
      (r : TryRange) (f : Frame) (below : List Frame) (vm : Vm C) (m : Bytes)
      (s l : List BoxedValue)
      → f.stack_base ≤ length vm.stack
      → resize_stack f.stack_base s ≡ resize_stack f.stack_base vm.stack
      → l ≡ take (scope f) vm.locals
      → deliver r f below m (record vm { stack = s; locals = l }) ≡ landed r f below m vm
  unfolding deliver
  deliver-landed r f below vm m s l deep bottom own =
      rw (bottom, own, resize_stack-drop f.stack_base vm.stack deep) refl

  -- On checked bytecode, an error that no frame above `f` covers and `f` does goes on at the `catch`
  -- of `f`, with the error as the only operand of `f` and the locals of `f` as they were; the frames
  -- above are gone and those below are untouched.
  pub execute-landed :
      (rounds fuel : ℕ) (vm failing : Vm C) (m : Bytes) (loc : Option SourceLoc) (r : TryRange)
      (f : Frame) (above below : List Frame)
      → IsSound host depth vm
      → run_until_error host fuel vm ≡ some (error m loc failing)
      → failing.frames ≡ above ++ f ∷ below
      → All (λ g. handler_of g ≡ none) above
      → handler_of f ≡ some r
      → execute host (suc rounds) fuel vm ≡ execute host rounds fuel (landed r f below m failing)
  unfolding execute handle take_error
  execute-landed rounds fuel vm failing m loc r f above below sound failed frames none_above here =
      let orderly : Failing host depth (above ++ f ∷ below) (length failing.stack)
          (length failing.locals) =
        rw frames at (rw failed at (run_until_error-IsOrderly host depth table fuel vm sound)) in
      let c = unwind-Catches r f below above failing orderly none_above here in
      let met : unwind failing.frames failing
          ≡ caught r f below (record failing { stack = c.stack; locals = c.locals }) =
        subst
          (λ fs.
            unwind fs failing
            ≡ caught r f below (record failing { stack = c.stack; locals = c.locals }))
          (sym frames) c.unwound in
      rw (failed, handle, met, take_error)
        (ap (execute host rounds fuel)
          (deliver-landed r f below failing m c.stack c.locals c.deep c.bottom c.own))
