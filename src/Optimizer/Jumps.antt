-- ===== src/Optimizer/Jumps.antt =====
-- `OpcodeTable::remove_unnecessary_jumps` of compiler/optimize.cc.
pub mod Correct
use vnpforth.Prelude.{Bool, true, false, List, [], ◌∷◌, Option, none, some, ◌==◌, if◌then◌else◌}
use vnpforth.Opcode.{
  Instruction, Label, Opcode, instruction, is_branching_opcode, is_label_opcode, is_noop_opcode,
}
use vnpforth.Optimizer.Pass.{Pass, finished, nop_if}

-- `std::find_if` of the first opcode that is not a no-op; `none` is the end of the table.
unfoldable pub next_non_noop : List Opcode → Option Instruction
unfolding is_noop_opcode
next_non_noop [] = none
next_non_noop (op ∷ rest) =
    if is_noop_opcode (instruction op) then next_non_noop rest else some (instruction op)

-- `first` is a jump, conditional or otherwise, and `second` is the label that it targets.
abbrev pub targets : Option Label → Option Label → Bool
targets (some target) (some l) = target == l
targets _ _ = false

unfoldable pub jumps_to_next : Instruction → Option Instruction → Bool
unfolding is_branching_opcode is_label_opcode
jumps_to_next first none = false
jumps_to_next first (some second) = targets (is_branching_opcode first) (is_label_opcode second)

-- Where there is no `second` the loop breaks, and what is left holds no jump.
unfoldable pub remove_unnecessary_jumps : List Opcode → Pass
unfolding jumps_to_next next_non_noop
remove_unnecessary_jumps [] = finished
remove_unnecessary_jumps (op ∷ rest) =
    nop_if (jumps_to_next (instruction op) (next_non_noop rest)) op (remove_unnecessary_jumps rest)
