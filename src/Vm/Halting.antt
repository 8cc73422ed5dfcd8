-- ===== src/Vm/Halting.antt =====
-- The end of the loop of `run_until_error` of src/odio/vm.cpp.
use osodio.Prelude.{
  ℕ, zero, suc, ◌+◌, ◌-◌, ◌*◌, ◌^◌, ◌≤◌, ◌<◌, ◌≡◌, refl, ap, Bool, true, ◌&&◌, List, [], ◌∷◌, some,
  arith, length, All, is_some, Option-cases, inl, inr,
}
use native.Mathlib.Nat.{suc-mul, one-le-pow}
use osodio.Vm.Boxes.{null}
use osodio.Vm.Code.{Instr, Chunk, get_elem?, function_of}
use osodio.Vm.State.{Frame, Vm, Host, Outcome, next, failed, finished, waits, fault, leave}
use osodio.Vm.Operations.{step_limit, max_frames}
use osodio.Vm.Step.{fetch, step}
use osodio.Vm.Run.{proceed, run, run_until_error}
use osodio.Vm.Moves.{Move, ahead, back, called, returned, Moves}
use osodio.Vm.Moves.Instructions.{forward, exec-Moves}
use osodio.Vm.Weight.{weight, IsShort, weight-ahead, weight-returned, weight-called, weight-bound}

-- The conditional jumps of a chunk go forward.
unfoldable pub code_forward : ℕ → List Instr → Bool
code_forward pc [] = true
code_forward pc (i ∷ is) = forward i.op pc i.operand && code_forward (suc pc) is

code_forward-get_elem? :
    (pc k : ℕ) (code : List Instr) (i : Instr)
    → code_forward pc code ≡ true
    → get_elem? code k ≡ some i
    → (forward i.op (pc + k) i.operand ≡ true) × (suc k ≤ length code)
unfolding code_forward get_elem?
code_forward-get_elem? pc k [] i ok at = cc
code_forward-get_elem? pc zero (j ∷ is) i ok at = ground arith
code_forward-get_elem? pc (suc k) (j ∷ is) i ok at =
    ground (arith, code_forward-get_elem? (suc pc) k is i)

suc_sub : (m n : ℕ) → suc m ≤ n → suc (n - suc m) ≡ n - m
suc_sub m n h = omega arith

-- A chunk of fewer than `b - 1` instructions.
abbrev pub Bounded : ℕ → Chunk → Type 0
Bounded b ch = (suc (suc (length ch.code)) ≤ b) × (code_forward 0 ch.code ≡ true)

module _ {C : Type 0} (host : Host C) (b : ℕ)
    (table : (index : ℕ) (ch : Chunk)
      → function_of host.functions index ≡ some ch
      → Bounded b ch) where
  abbrev FrameOk : Frame → Type 0
  FrameOk f = Bounded b f.chunk

  -- The frames are few and short, and the counter is within its limit.
  abbrev pub IsWithin : Vm C → Type 0
  IsWithin vm = All FrameOk vm.frames × (length vm.frames ≤ max_frames) × (vm.steps ≤ step_limit)

  -- The jumps back that are left, and what is left of the frames.
  abbrev pub remaining : Vm C → ℕ
  remaining vm = (step_limit - vm.steps) * b ^ max_frames + weight max_frames b vm.frames

  abbrev Nearer : ℕ → Outcome C → Type 0
  Nearer n (next vm) = IsWithin vm × (remaining vm < n)
  Nearer n _ = Unit

  All-IsShort : (fs : List Frame) → All FrameOk fs → All (IsShort b) fs
  All-IsShort [] h = tt
  All-IsShort (f ∷ fs) (h, hs) = (omega arith, All-IsShort fs hs)

  Move-Nearer :
      (f : Frame) (fs : List Frame) (steps : ℕ) (vm : Vm C)
      → FrameOk f
      → All FrameOk fs
      → suc (length fs) ≤ max_frames
      → steps ≤ step_limit
      → suc f.pc ≤ length f.chunk.code
      → Move host (record f { pc = suc f.pc }) fs steps vm
      → IsWithin vm
        × (remaining vm < (step_limit - steps) * b ^ max_frames + weight max_frames b (f ∷ fs))
  Move-Nearer f fs steps vm ok oks few counted inside (ahead t later e c) =
      rw (e, c)
        (
          ((ok, oks), few, counted),
          omega (
            arith,
            weight-ahead max_frames b (omega arith) f (record f { pc = t }) fs (omega arith),
          ),
        )
  Move-Nearer f fs steps vm ok oks few counted inside (back t e c limit) =
      rw (e, c)
        (
          ((ok, oks), few, limit),
          omega (
            arith,
            suc-mul (step_limit - suc steps) (b ^ max_frames),
            ap (λ k. k * b ^ max_frames) (suc_sub steps step_limit limit),
            weight-bound max_frames b (omega arith) (record f { pc = t } ∷ fs)
                (All-IsShort (record f { pc = t } ∷ fs) (ok, oks)) few,
            one-le-pow (max_frames - suc (length fs)) b (omega arith),
          ),
        )
  Move-Nearer f fs steps vm ok oks few counted inside (called i g there at_start fits e c) =
      let callee = table i g.chunk there in
      rw (e, c)
        (
          (((callee, (ok, oks)), fits, counted)),
          omega (
            arith,
            weight-called max_frames b (omega arith) f (record f { pc = suc f.pc }) g fs
                (omega arith) (omega arith) fits,
          ),
        )
  Move-Nearer f fs steps vm ok oks few counted inside (returned e c) =
      rw (e, c)
        (
          (oks, omega arith, counted),
          omega (arith, weight-returned max_frames b (omega arith) f fs),
        )

  Moves-Nearer :
      (f : Frame) (fs : List Frame) (steps : ℕ) (o : Outcome C)
      → FrameOk f
      → All FrameOk fs
      → suc (length fs) ≤ max_frames
      → steps ≤ step_limit
      → suc f.pc ≤ length f.chunk.code
      → Moves host (record f { pc = suc f.pc }) fs steps o
      → Nearer ((step_limit - steps) * b ^ max_frames + weight max_frames b (f ∷ fs)) o
  Moves-Nearer f fs steps (next vm) ok oks few counted inside m =
      Move-Nearer f fs steps vm ok oks few counted inside m
  Moves-Nearer f fs steps (failed msg vm) ok oks few counted inside m = tt
  Moves-Nearer f fs steps (finished v vm) ok oks few counted inside m = tt
  Moves-Nearer f fs steps (waits id args vm) ok oks few counted inside m = tt
  Moves-Nearer f fs steps (fault why) ok oks few counted inside m = tt

  leave-Nearer :
      (f : Frame) (fs : List Frame) (vm : Vm C)
      → IsWithin (record vm { frames = f ∷ fs })
      → Nearer
          (remaining (record vm { frames = f ∷ fs }))
          (leave null (record vm { frames = f ∷ fs }))
  unfolding leave
  leave-Nearer f [] vm h = tt
  leave-Nearer f (g ∷ fs) vm ((ok, oks), few, counted) = (
    (oks, omega arith, counted),
    omega (arith, weight-returned max_frames b (omega arith) f (g ∷ fs)),
  )

  fetch-Nearer :
      (f : Frame) (fs : List Frame) (vm : Vm C)
      → IsWithin (record vm { frames = f ∷ fs })
      → Nearer
          (remaining (record vm { frames = f ∷ fs }))
          (fetch host f fs (record vm { frames = f ∷ fs }))
  unfolding fetch
  fetch-Nearer f fs vm ((ok, oks), few, counted) =
      elim (Option-cases (get_elem? f.chunk.code f.pc)) [
        | inl past ↦ rw (fetch, past) (leave-Nearer f fs vm ((ok, oks), few, counted))
        | inr (i, there) ↦
            let (goes, inside) = code_forward-get_elem? 0 f.pc f.chunk.code i ok.1 there in
            rw (fetch, there)
              (Moves-Nearer f fs vm.steps _ ok oks few counted inside (
                exec-Moves host (record f { pc = suc f.pc }) fs vm i.op i.operand f.pc refl
                  (ground arith)))
      ]

  step-Nearer :
      (fs : List Frame) (vm : Vm C)
      → IsWithin (record vm { frames = fs })
      → Nearer (remaining (record vm { frames = fs })) (step host (record vm { frames = fs }))
  unfolding step
  step-Nearer [] vm h = tt
  step-Nearer (f ∷ fs) vm h = fetch-Nearer f fs vm h

  proceed-halts :
      (fuel : ℕ) (o : Outcome C)
      → ((vm : Vm C) → IsWithin vm → remaining vm < fuel → is_some (run host fuel vm) ≡ true)
      → Nearer fuel o
      → is_some (proceed (run host fuel) o) ≡ true
  unfolding proceed
  proceed-halts fuel (next vm) ih (h, lt) = ih vm h lt
  proceed-halts fuel (failed m vm) ih h = refl
  proceed-halts fuel (finished v vm) ih h = refl
  proceed-halts fuel (waits id args vm) ih h = refl
  proceed-halts fuel (fault why) ih h = refl

  Nearer-mono : (m n : ℕ) (o : Outcome C) → m ≤ n → Nearer m o → Nearer n o
  Nearer-mono m n (next vm) le (h, lt) = (h, omega arith)
  Nearer-mono m n (failed msg vm) le h = tt
  Nearer-mono m n (finished v vm) le h = tt
  Nearer-mono m n (waits id args vm) le h = tt
  Nearer-mono m n (fault why) le h = tt

  run-halts :
      (fuel : ℕ) (vm : Vm C) → IsWithin vm → remaining vm < fuel → is_some (run host fuel vm) ≡ true
  unfolding run
  run-halts zero vm h lt = absurd (omega arith)
  run-halts (suc fuel) vm h lt =
      proceed-halts fuel (step host vm) (run-halts fuel)
        (Nearer-mono (remaining vm) fuel (step host vm) (omega arith) (step-Nearer vm.frames vm h))

  weight-whole :
      (fs : List Frame)
      → All FrameOk fs
      → length fs ≤ max_frames
      → weight max_frames b fs ≤ b ^ max_frames
  unfolding weight
  weight-whole [] h few = omega arith
  weight-whole (f ∷ fs) (ok, oks) few =
      omega (
        arith,
        weight-bound max_frames b (omega arith) (f ∷ fs) (All-IsShort (f ∷ fs) (ok, oks)) few,
      )

  -- With chunks of fewer than `b - 1` instructions whose conditional jumps go forward, a run from at
  -- most 200 frames ends within (step_limit + 1) * b ^ 200 instructions: in a value, an error, a wait
  -- or a fault.
  pub run_until_error-halts :
      (fuel : ℕ) (vm : Vm C)
      → All FrameOk vm.frames
      → length vm.frames ≤ max_frames
      → suc step_limit * b ^ max_frames < fuel
      → is_some (run_until_error host fuel vm) ≡ true
  unfolding run_until_error
  run_until_error-halts fuel vm h few enough =
      run-halts fuel (record vm { steps = 0 }) (h, few, omega arith)
        (omega (arith, suc-mul step_limit (b ^ max_frames), weight-whole vm.frames h few))
