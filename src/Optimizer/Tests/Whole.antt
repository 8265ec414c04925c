-- ===== src/Optimizer/Tests/Whole.antt =====
-- Witnesses: the theorems about relocated labels and the whole optimizer at small programs.
use vnpforth.Prelude.{false, List, [], ◌∷◌, some, ◌≡◌, refl}
use vnpforth.Opcode.{
  r0, data_stack, Opcode, created, optimizing, no_op, call, define, end_define, label, load_value,
  push, pop, jump, jump_zero,
}
use vnpforth.Semantics.{run, exec, follow, step, find_label, find_define}
use vnpforth.Semantics.Layout.{IsLaidOut, is_nested, labels, defined}
use vnpforth.Optimizer.Pass.{Pass}
use vnpforth.Optimizer.Unreachable.{remove_unreachable_code}
use vnpforth.Optimizer.Jumps.{remove_unnecessary_jumps}
use vnpforth.Optimizer.UselessCalls.{remove_useless_calls}
use vnpforth.Optimizer.Booleans.{inline_booleans}
use vnpforth.Optimizer.SmallFunctions.{inline_small_functions}
use vnpforth.Optimizer.PushPop.{replace_adjacent_push_pop_pairs}
use vnpforth.Optimizer.Relocate.{relocate_suboptimal_labels}
use vnpforth.Optimizer.Relocate.Correct.{run-relocate_suboptimal_labels}
use vnpforth.Optimizer.Layout.Relocated.{relocate_suboptimal_labels-IsLaidOut}
use vnpforth.Optimizer.Labels.{remove_unnecessary_labels}
use vnpforth.Optimizer.Driver.{Optimized, optimize_code}
use vnpforth.Optimizer.Driver.Improved.{IsReady}
use vnpforth.Optimizer.Driver.Correct.{run-optimize_code, optimize_code-IsReady}
use vnpforth.Optimizer.Tests.{
  five, nothing, main_word, true_word, program, library, start, stop, library-RunsBooleans,
  program-IsReady, program-runs,
}

-- What optimize_code leaves of the program.
abbrev optimized : Optimized
optimized = record {
  opcodes =
      created (define five) 1
      ∷ created (load_value r0 5) 1
      ∷ created (push r0 data_stack) 1
      ∷ optimizing no_op 1 (created (label 1) 1)
      ∷ created (end_define five) 1
      ∷ created (define nothing) 2
      ∷ optimizing no_op 2 (created (label 2) 2)
      ∷ created (end_define nothing) 2
      ∷ created (define main_word) 3
      ∷ optimizing no_op 3 (created (call five) 3)
      ∷ created (load_value r0 5) 1
      ∷ created (push r0 data_stack) 1
      ∷ optimizing no_op 3 (created (call nothing) 3)
      ∷ optimizing no_op 3 (created (call true_word) 3)
      ∷ created (load_value r0 4294967295) 3
      ∷ optimizing no_op 3 (created (push r0 data_stack) 3)
      ∷ optimizing no_op 3 (created (pop r0 data_stack) 3)
      ∷ created (jump_zero r0 3) 3
      ∷ created (jump 0) 3
      ∷ optimizing no_op 3 (created (load_value r0 7) 3)
      ∷ optimizing no_op 3 (created (push r0 data_stack) 3)
      ∷ created (label 3) 3
      ∷ created (label 0) 3
      ∷ created (end_define main_word) 3
      ∷ [];
  limit_reached = false;
}

program-optimized : optimize_code program ≡ some optimized
unfolding optimize_code relocate_suboptimal_labels remove_unreachable_code remove_unnecessary_jumps
    remove_useless_calls inline_booleans inline_small_functions replace_adjacent_push_pop_pairs
    remove_unnecessary_labels
program-optimized = refl

run-optimize_code_example : run library optimized.opcodes 4 main_word start ≡ some stop
run-optimize_code_example =
    run-optimize_code library library-RunsBooleans program optimized program-optimized
      program-IsReady 4 main_word start stop program-runs

optimize_code-IsReady_example : IsReady optimized.opcodes
optimize_code-IsReady_example =
    optimize_code-IsReady program optimized program-optimized program-IsReady

-- The jump behind the first label is all that stands between it and the second one's code.
abbrev moving : List Opcode
moving =
    created (define main_word) 1
    ∷ created (jump_zero r0 1) 1
    ∷ created (load_value r0 7) 1
    ∷ created (label 1) 2
    ∷ created (jump 2) 2
    ∷ created (load_value r0 9) 3
    ∷ created (label 2) 3
    ∷ created (end_define main_word) 3
    ∷ []

abbrev moved : Pass
moved = record {
  opcodes =
      created (define main_word) 1
      ∷ created (jump_zero r0 1) 1
      ∷ created (load_value r0 7) 1
      ∷ optimizing no_op 2 (created (label 1) 2)
      ∷ created (jump 2) 2
      ∷ created (load_value r0 9) 3
      ∷ created (label 1) 2
      ∷ created (label 2) 3
      ∷ created (end_define main_word) 3
      ∷ [];
  optimizations = 2;
}

moving-moved : relocate_suboptimal_labels moving ≡ some moved
unfolding relocate_suboptimal_labels
moving-moved = refl

moving-IsLaidOut : IsLaidOut moving
unfolding is_nested labels defined
moving-IsLaidOut = record { nested = refl; labels_once = refl; defined_once = refl }

moving-runs : run library moving 2 main_word start ≡ some start
unfolding run exec follow step find_label find_define
moving-runs = refl

run-relocate_suboptimal_labels_example : run library moved.opcodes 2 main_word start ≡ some start
run-relocate_suboptimal_labels_example =
    run-relocate_suboptimal_labels library moving moving-IsLaidOut.labels_once moved moving-moved 2
      main_word start start moving-runs

relocate_suboptimal_labels-IsLaidOut_example :
    IsLaidOut moved.opcodes × (defined moved.opcodes ≡ defined moving)
relocate_suboptimal_labels-IsLaidOut_example =
    relocate_suboptimal_labels-IsLaidOut moving moved moving-moved moving-IsLaidOut
