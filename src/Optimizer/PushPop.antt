-- ===== src/Optimizer/PushPop.antt =====
-- `OpcodeTable::replace_adjacent_push_pop_pairs` of compiler/optimize.cc.
pub mod Correct
use vnpforth.Prelude.{Bool, true, false, ◌&&◌, List, [], ◌∷◌, Option, none, some, if◌then◌else◌}
use vnpforth.Opcode.{
  Register, Stack, register_equals, stack_equals, Instruction, Opcode, created, load_register,
  no_op, instruction, get_line, is_push_opcode, is_pop_opcode, is_noop_opcode,
}
use vnpforth.Optimizer.Pass.{Pass, finished, keep, replaced_by, replace_with, replace_with_nop}
use vnpforth.Optimizer.Jumps.{next_non_noop}

-- What replaces a push with the pop behind it, if the pop pops the stack just pushed: nothing, or a
-- register to register move.
abbrev pub move : Register → Register → Instruction
move from to = if register_equals from to then no_op else load_register to from

abbrev pub pair_move : Option (Register × Stack) → Option (Register × Stack) → Option Instruction
pair_move (some (from, s)) (some (to, s')) = if stack_equals s s' then some (move from to) else none
pair_move _ _ = none

unfoldable pub find_pair : Instruction → Option Instruction → Option Instruction
unfolding is_push_opcode is_pop_opcode register_equals stack_equals
find_pair first none = none
find_pair first (some second) = pair_move (is_push_opcode first) (is_pop_opcode second)

-- The first opcode of a pair is replaced where it stands; the second by a no-op, when the scan comes
-- to it (`in_pair`). The source writes both at once and goes on at the second.
unfoldable pub scan_pairs : Bool → List Opcode → Pass
unfolding find_pair next_non_noop is_noop_opcode
scan_pairs in_pair [] = finished
scan_pairs true (op ∷ rest) = elim (is_noop_opcode (instruction op)) [
  | true ↦ keep op (scan_pairs true rest)
  | false ↦ keep (replace_with_nop op) (scan_pairs false rest)
]
scan_pairs false (op ∷ rest) = elim (find_pair (instruction op) (next_non_noop rest)) [
  | none ↦ keep op (scan_pairs false rest)
  | some i ↦ replaced_by (replace_with op (created i (get_line op)) ∷ []) (scan_pairs true rest)
]

unfoldable pub replace_adjacent_push_pop_pairs : List Opcode → Pass
unfolding scan_pairs
replace_adjacent_push_pop_pairs opcodes = scan_pairs false opcodes
