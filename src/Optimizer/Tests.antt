-- ===== src/Optimizer/Tests.antt =====
-- Witnesses: the theorems about the optimizer at one small program.
mod Whole
use vnpforth.Prelude.{
  ◌⊎◌, ℕ, true, false, List, [], ◌∷◌, some, ◌≡◌, refl, codes, arith, if◌then◌else◌,
}
use vnpforth.Symbol.{Symbol, word, external}
use vnpforth.Opcode.{
  r0, data_stack, Opcode, created, call, define, end_define, label, load_value, push, pop, jump,
  jump_zero,
}
use vnpforth.Semantics.{Machine, Runtime, run, exec, follow, step, find_label, find_define}
use vnpforth.Semantics.Layout.{IsLaidOut, is_nested, labels, defined}
use vnpforth.Optimizer.Pass.{Pass}
use vnpforth.Optimizer.Unreachable.{remove_unreachable_code}
use vnpforth.Optimizer.Unreachable.Correct.{run-remove_unreachable_code}
use vnpforth.Optimizer.Jumps.{remove_unnecessary_jumps}
use vnpforth.Optimizer.Jumps.Correct.{run-remove_unnecessary_jumps}
use vnpforth.Optimizer.UselessCalls.{remove_useless_calls}
use vnpforth.Optimizer.UselessCalls.Correct.{run-remove_useless_calls}
use vnpforth.Optimizer.Booleans.{inline_booleans, is_boolean, mangled_true}
use vnpforth.Optimizer.Booleans.Correct.{
  run-inline_booleans, RunsBooleans, library_booleans, with_boolean,
}
use vnpforth.Optimizer.Labels.{remove_unnecessary_labels}
use vnpforth.Optimizer.Labels.Correct.{run-remove_unnecessary_labels}
use vnpforth.Optimizer.SmallFunctions.{inline_small_functions, find_splice, splices_of}
use vnpforth.Optimizer.SmallFunctions.Candidates.{is_small}
use vnpforth.Optimizer.SmallFunctions.Splices.{find_splice-splices_of, body_of}
use vnpforth.Optimizer.SmallFunctions.Correct.{run-inline_small_functions}
use vnpforth.Optimizer.PushPop.{replace_adjacent_push_pop_pairs}
use vnpforth.Optimizer.PushPop.Correct.{run-replace_adjacent_push_pop_pairs}
use vnpforth.Optimizer.Relocate.{relocate_suboptimal_labels}
use vnpforth.Optimizer.Relocate.Total.{relocate_suboptimal_labels_total}
use vnpforth.Optimizer.Layout.{SameLayout}
use vnpforth.Optimizer.Layout.Single.{remove_unreachable_code-SameLayout}
use vnpforth.Optimizer.Layout.Inlined.{inline_small_functions-SameLayout}
use vnpforth.Optimizer.Driver.{first_passes, Optimized, optimize_code}
use vnpforth.Optimizer.Driver.Improved.{IsReady}
use vnpforth.Optimizer.Driver.Correct.{run-first_passes}
use vnpforth.Optimizer.Driver.Ends.{optimize_code-IsSettled, IsSettled}

abbrev pub five : Symbol
five = record { name = codes "v4_five"; id = 0; line = 1; kind = word }

abbrev pub nothing : Symbol
nothing = record { name = codes "v7_nothing"; id = 1; line = 2; kind = word }

abbrev pub main_word : Symbol
main_word = record { name = codes "main"; id = 2; line = 3; kind = word }

abbrev pub true_word : Symbol
true_word = record { name = mangled_true; id = 3; line = 3; kind = external }

-- : five 5 ;  : nothing ;  five nothing true if exit 7 then
abbrev pub program : List Opcode
program =
    created (define five) 1
    ∷ created (load_value r0 5) 1
    ∷ created (push r0 data_stack) 1
    ∷ created (label 1) 1
    ∷ created (end_define five) 1
    ∷ created (define nothing) 2
    ∷ created (label 2) 2
    ∷ created (end_define nothing) 2
    ∷ created (define main_word) 3
    ∷ created (call five) 3
    ∷ created (call nothing) 3
    ∷ created (call true_word) 3
    ∷ created (pop r0 data_stack) 3
    ∷ created (jump_zero r0 3) 3
    ∷ created (jump 0) 3
    ∷ created (load_value r0 7) 3
    ∷ created (push r0 data_stack) 3
    ∷ created (label 3) 3
    ∷ created (label 0) 3
    ∷ created (end_define main_word) 3
    ∷ []

abbrev pub library : Runtime ℕ
library = record {
  run_external = λ s m. if is_boolean (some s) then some (with_boolean s m) else some m;
  run_assembly = λ t m. some m;
  symbol_address = λ s. s.id;
  data_address = λ d. d;
}

pub library-RunsBooleans : RunsBooleans library
library-RunsBooleans s b m = ground arith

abbrev pub start : Machine ℕ
start = record {
  reg0 = 0;
  reg1 = 0;
  data_cells = [];
  return_cells = [];
  float_cells = [];
  memory = λ a. 0;
  world = 0;
}

abbrev pub stop : Machine ℕ
stop = record {
  reg0 = 4294967295;
  reg1 = 0;
  data_cells = 5 ∷ [];
  return_cells = [];
  float_cells = [];
  memory = λ a. 0;
  world = 0;
}

pub program-runs : run library program 4 main_word start ≡ some stop
unfolding run exec follow step find_label find_define
program-runs = refl

program-nested : is_nested false program ≡ true
unfolding is_nested
program-nested = refl

pub program-IsLaidOut : IsLaidOut program
unfolding is_nested labels defined
program-IsLaidOut = record { nested = refl; labels_once = refl; defined_once = refl }

pub program-IsReady : IsReady program
unfolding library_booleans defined
program-IsReady = (program-IsLaidOut, refl)

run-first_passes_example : run library (first_passes program).opcodes 4 main_word start ≡ some stop
run-first_passes_example =
    run-first_passes library library-RunsBooleans program program-IsReady 4 main_word start stop
      program-runs

run-remove_unreachable_code_example :
    run library (remove_unreachable_code program).opcodes 4 main_word start ≡ some stop
run-remove_unreachable_code_example =
    run-remove_unreachable_code library program program-nested 4 main_word start stop program-runs

run-remove_unnecessary_jumps_example :
    run library (remove_unnecessary_jumps program).opcodes 4 main_word start ≡ some stop
run-remove_unnecessary_jumps_example =
    run-remove_unnecessary_jumps library program (program-IsLaidOut.labels_once) 4 main_word start
      stop program-runs

run-remove_useless_calls_example :
    run library (remove_useless_calls program).opcodes 4 main_word start ≡ some stop
run-remove_useless_calls_example =
    run-remove_useless_calls library program (program-IsLaidOut.defined_once) 4 main_word start stop
      program-runs

run-inline_booleans_example :
    run library (inline_booleans program).opcodes 4 main_word start ≡ some stop
run-inline_booleans_example =
    run-inline_booleans library program library-RunsBooleans (program-IsReady.1) 4 main_word start
      stop program-runs

run-inline_small_functions_example :
    run library (inline_small_functions program).opcodes 4 main_word start ≡ some stop
run-inline_small_functions_example =
    run-inline_small_functions library program (program-IsLaidOut.defined_once) 4 main_word start
      stop program-runs

run-replace_adjacent_push_pop_pairs_example :
    run library (replace_adjacent_push_pop_pairs program).opcodes 4 main_word start ≡ some stop
run-replace_adjacent_push_pop_pairs_example =
    run-replace_adjacent_push_pop_pairs library program 4 main_word start stop program-runs

run-remove_unnecessary_labels_example :
    run library (remove_unnecessary_labels program).opcodes 4 main_word start ≡ some stop
run-remove_unnecessary_labels_example =
    run-remove_unnecessary_labels library program 4 main_word start stop program-runs

relocate_suboptimal_labels_total_example :
    (p : Pass) × (relocate_suboptimal_labels program ≡ some p)
relocate_suboptimal_labels_total_example = relocate_suboptimal_labels_total program

inline_small_functions-SameLayout_example :
    SameLayout program (inline_small_functions program).opcodes
inline_small_functions-SameLayout_example =
    inline_small_functions-SameLayout program (program-IsLaidOut.defined_once)

remove_unreachable_code-SameLayout_example :
    SameLayout program (remove_unreachable_code program).opcodes
remove_unreachable_code-SameLayout_example =
    remove_unreachable_code-SameLayout program program-nested

-- : five 5 ; has nothing to optimize.
abbrev pub settled : List Opcode
settled =
    created (define five) 1
    ∷ created (load_value r0 5) 1
    ∷ created (push r0 data_stack) 1
    ∷ created (end_define five) 1
    ∷ []

settled-optimized :
    optimize_code settled ≡ some (record { opcodes = settled; limit_reached = false })
unfolding optimize_code relocate_suboptimal_labels remove_unreachable_code remove_unnecessary_jumps
    remove_useless_calls inline_booleans inline_small_functions replace_adjacent_push_pop_pairs
    remove_unnecessary_labels
settled-optimized = refl

optimize_code-IsSettled_example :
    (o : Optimized) × (optimize_code settled ≡ some o)
    × ((o.limit_reached ≡ true) ⊎ IsSettled o.opcodes)
optimize_code-IsSettled_example = optimize_code-IsSettled settled

five_splice :
    find_splice five (splices_of program)
    ≡ some (created (load_value r0 5) 1 ∷ created (push r0 data_stack) 1 ∷ [])
unfolding inline_small_functions
five_splice = refl

find_splice-splices_of_example :
    (body : List Opcode) × (find_define five program ≡ some body)
    × (is_small 0 body ≡ true)
    × ((created (load_value r0 5) 1 ∷ created (push r0 data_stack) 1 ∷ []) ≡ body_of body)
find_splice-splices_of_example =
    find_splice-splices_of five program _ (program-IsLaidOut.defined_once) five_splice
