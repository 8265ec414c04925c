-- ===== src/Optimizer/Labels.antt =====
-- `OpcodeTable::remove_unnecessary_labels` of compiler/optimize.cc.
pub mod Correct
use vnpforth.Prelude.{Bool, true, false, not, List, [], ◌∷◌, Option, none, some, contains}
use vnpforth.Opcode.{Label, Opcode, instruction, is_branching_opcode, is_label_opcode}
use vnpforth.Optimizer.Pass.{Pass, finished, nop_if}

-- The first loop: the labels that branches use.
unfoldable pub used_labels : List Opcode → List Label
unfolding is_branching_opcode
used_labels [] = []
used_labels (op ∷ rest) = elim (is_branching_opcode (instruction op)) [
  | none ↦ used_labels rest
  | some l ↦ l ∷ used_labels rest
]

-- The second loop.
abbrev pub is_unused : List Label → Option Label → Bool
is_unused used none = false
is_unused used (some l) = not (contains used l)

unfoldable pub remove_labels : List Label → List Opcode → Pass
unfolding is_label_opcode
remove_labels used [] = finished
remove_labels used (op ∷ rest) =
    nop_if (is_unused used (is_label_opcode (instruction op))) op (remove_labels used rest)

unfoldable pub remove_unnecessary_labels : List Opcode → Pass
unfolding used_labels remove_labels
remove_unnecessary_labels opcodes = remove_labels (used_labels opcodes) opcodes
