-- ===== src/Vm/Tests.antt =====
-- Runs of the virtual machine of src/odio/vm.cpp.
use osodio.Prelude.{
  ℕ, zero, suc, ◌+◌, ◌-◌, ◌*◌, ◌^◌, ◌≡◌, refl, ℤ, pos, negsuc, pos_part, true, List, [], ◌∷◌, none,
  some, bytes, arith, get_or, is_some, eq_ℤ, if◌then◌else◌,
}
use mathlib.Core.Path.{subst}
use osodio.Vm.Boxes.{BoxedValue, null, integer, str, dict, Boxes}
use osodio.Vm.Code.{
  Op, const, div, call_function, return, add_int, SourceLoc, Instr, TryRange, Chunk, get_elem?,
  function_of, sin_especializar,
}
use osodio.Vm.Words.{FloatOps, eq_double, is_nan, add_long}
use osodio.Vm.Arithmetic.{value, trap, arith_values, arith_longs, divide_longs, add_values}
use osodio.Vm.State.{
  Frame, Vm, Host, push, pop_args, answer, binary, leave, resize_stack, resize_locals,
}
use osodio.Vm.Operations.{generic, push_elem, return_top, run_function, enter}
use osodio.Vm.Step.{exec, fetch, step}
use osodio.Vm.Handlers.{find_from, find_handler, error_value, unwind, deliver}
use osodio.Vm.Run.{done, proceed, handle, take_error, run, run_until_error, execute, start, started}
use osodio.Vm.Specialised.{exec-sin_especializar}
use osodio.Vm.Innermost.{Chosen, find_handler-Chosen}
use osodio.Vm.Checker.{chunk_ok, code_ok, ranges_ok, instr_ok, goes_on, pops, pushes}
use osodio.Vm.Depth.{Checked}
use osodio.Vm.Depth.Instructions.{TableChecked}
use osodio.Vm.Depth.Runs.{IsOrderly, start-IsOrderly}
use osodio.Vm.Catching.{landed, execute-landed}
use osodio.Vm.Halting.{Bounded, code_forward, run_until_error-halts}
use osodio.Vm.Moves.Instructions.{forward}
use osodio.Vm.Range.{Exact}

abbrev at_line : ℕ → SourceLoc
at_line n = record { line = n; col = 1 }

abbrev instr : Op → ℕ → Instr
instr op operand = record { op = op; operand = operand; loc = at_line 1 }

-- `fn f(): return 1 / 0`
abbrev dividing : Chunk
dividing = record {
  code = instr const 0 ∷ instr const 1 ∷ instr div 0 ∷ instr return 0 ∷ [];
  constants = integer (pos 1) ∷ integer (pos 0) ∷ [];
  try_ranges = [];
  num_locals = 0;
}

-- `try: return f()`, `catch e: return e`
abbrev catching : Chunk
catching = record {
  code = instr call_function 0 ∷ instr return 0 ∷ instr return 0 ∷ [];
  constants = [];
  try_ranges = record { begin = 0; finish = 2; catch_pc = 2 } ∷ [];
  num_locals = 0;
}

abbrev plain_floats : FloatOps
plain_floats = record {
  add_double = λ x y. 0;
  sub_double = λ x y. 0;
  mul_double = λ x y. 0;
  div_double = λ x y. 0;
  of_long = pos_part;
}

abbrev host : Host (Unit {0})
host = record {
  floats = plain_floats;
  depth = 100;
  functions = some (dividing ∷ []);
  native = λ id args h c. record { error = []; out = null; boxes = h; ctx = c };
  method = λ v name args h c. record { error = []; out = null; boxes = h; ctx = c };
}

-- Both chunks have their depths told apart by the length of their code.
abbrev depths : Chunk → ℕ → ℕ
depths ch pc = elim (get_elem? ch.code 3) [
  | none ↦ get_or (0 ∷ 1 ∷ 1 ∷ []) pc 0
  | some i ↦ get_or (0 ∷ 1 ∷ 2 ∷ 1 ∷ []) pc 0
]

abbrev no_boxes : Boxes
no_boxes = record { lists = []; dicts = [] }

table : TableChecked host depths
unfolding function_of get_elem? chunk_ok code_ok ranges_ok instr_ok goes_on pops pushes
table zero callee e =
    let same : dividing ≡ callee = cc in subst (λ c. Checked host depths c) same refl
table (suc k) callee e = cc

start-IsOrderly_example : IsOrderly host depths table (start host 10 100 catching [] no_boxes tt)
unfolding chunk_ok code_ok ranges_ok instr_ok goes_on pops pushes get_elem? function_of
start-IsOrderly_example = start-IsOrderly host depths table 10 100 catching [] no_boxes tt refl

abbrev frame : Chunk → ℕ → Frame
frame ch pc = record { chunk = ch; pc = pc; locals_base = 0; stack_base = 0 }

abbrev machine : List Frame → List BoxedValue → Vm (Unit {0})
machine fs s = record { frames = fs; stack = s; locals = []; boxes = no_boxes; ctx = tt; steps = 0 }

-- The function has failed in its division.
abbrev failing : Vm (Unit {0})
failing = machine (frame dividing 3 ∷ frame catching 1 ∷ []) []

abbrev caller_range : TryRange
caller_range = record { begin = 0; finish = 2; catch_pc = 2 }

execute-landed_example :
    execute host 2 100 (machine (frame catching 0 ∷ []) [])
    ≡ execute host 1 100 (
        landed host depths table caller_range
          (frame catching 1)
          []
          (bytes "division por cero")
          failing)
unfolding run_until_error run proceed step fetch exec run_function enter pop_args push_elem push
    generic binary answer arith_values arith_longs divide_longs eq_double is_nan find_handler
    find_from get_elem? function_of chunk_ok code_ok ranges_ok instr_ok goes_on pops pushes
execute-landed_example =
    execute-landed host depths table 1 100 (machine (frame catching 0 ∷ []) []) failing
      (bytes "division por cero") (some (at_line 1)) caller_range (frame catching 1)
      (frame dividing 3 ∷ []) [] (((refl, omega arith, refl), refl, tt)) refl refl (refl, tt) refl

-- The two integers of the machine below are added by both.
exec-sin_especializar_example :
    exec host add_int 0 (frame dividing 0) (machine [] (integer (pos 2) ∷ str [] ∷ []))
    ≡ exec host
        (sin_especializar add_int)
        0
        (frame dividing 0)
        (machine [] (integer (pos 2) ∷ str [] ∷ []))
exec-sin_especializar_example =
    exec-sin_especializar host add_int 0 (frame dividing 0)
      (machine [] (integer (pos 2) ∷ str [] ∷ []))

find_handler-Chosen_example :
    Chosen 1
      (caller_range ∷ record { begin = 1; finish = 2; catch_pc = 9 } ∷ [])
      (find_handler (caller_range ∷ record { begin = 1; finish = 2; catch_pc = 9 } ∷ []) 1)
find_handler-Chosen_example =
    find_handler-Chosen 1 (caller_range ∷ record { begin = 1; finish = 2; catch_pc = 9 } ∷ [])

short_table : (index : ℕ) (ch : Chunk) → function_of host.functions index ≡ some ch → Bounded 6 ch
unfolding function_of get_elem? code_forward forward
short_table zero ch e =
    let same : dividing ≡ ch = cc in subst (λ c. Bounded 6 c) same (omega arith, refl)
short_table (suc k) ch e = cc

run_until_error-halts_example :
    is_some (run_until_error host (50000001 * 6 ^ 200 + 1) (machine (frame catching 0 ∷ []) []))
    ≡ true
unfolding code_forward forward
run_until_error-halts_example =
    run_until_error-halts host 6 short_table (50000001 * 6 ^ 200 + 1)
      (machine (frame catching 0 ∷ []) []) ((omega arith, refl), tt) (omega arith) (omega arith)

abbrev least : ℤ
least = negsuc (2 ^ 63 - 1)

-- Zero, and the smallest `double` for all else.
abbrev unit_floats : FloatOps
unit_floats = record plain_floats { of_long = λ z. if eq_ℤ z (pos 0) then 0 else 1 }

-- The sum of the least number and -1 is undefined, and that of 2 and 3 is 5.
sums :
    (add_values plain_floats (integer least) (integer (negsuc 0)) no_boxes ≡ trap)
    × (add_values plain_floats (integer (pos 2)) (integer (pos 3)) no_boxes
        ≡ value (integer (pos 5)) no_boxes)
unfolding add_values add_long
sums = (refl, refl)

-- The whole run catches the error, whose value is in the first box.
caught_error :
    start host 10 100 catching [] no_boxes tt
    ≡ some (
        done (dict 0) (record (machine [] []) {
          boxes = record {
            lists = [];
            dicts = ((bytes "message", str (bytes "division por cero")) ∷ []) ∷ [];
          };
        }))
unfolding start started execute run_until_error run proceed step fetch exec run_function enter
    pop_args push_elem push generic binary answer arith_values arith_longs divide_longs eq_double
    is_nan find_handler find_from get_elem? function_of handle take_error unwind deliver error_value
    resize_stack resize_locals return_top leave
caught_error = refl
