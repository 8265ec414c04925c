-- ===== src/Optimizer/Unreachable.antt =====
-- `OpcodeTable::remove_unreachable_code` of compiler/optimize.cc.
pub mod Correct
use vnpforth.Prelude.{Bool, true, false, not, ◌&&◌, ◌||◌, List, [], ◌∷◌}
use vnpforth.Opcode.{
  Instruction, Opcode, instruction, is_jump_opcode, is_label_opcode, is_enddefine_opcode,
  is_noop_opcode,
}
use vnpforth.Optimizer.Pass.{Pass, finished, is_some, nop_if}

-- The inner loop breaks here.
unfoldable pub ends_unreachable : Instruction → Bool
unfolding is_label_opcode is_enddefine_opcode
ends_unreachable i = is_some (is_label_opcode i) || is_enddefine_opcode i

-- Whether the opcodes after this one are in the inner loop: after a jump that the outer loop has
-- found, and then up to the next label or the definition's end.
unfoldable pub stays_unreachable : Bool → Instruction → Bool
unfolding ends_unreachable is_jump_opcode
stays_unreachable false i = is_some (is_jump_opcode i)
stays_unreachable true i = not (ends_unreachable i)

unfoldable pub scan_unreachable : Bool → List Opcode → Pass
unfolding stays_unreachable is_noop_opcode
scan_unreachable unreachable [] = finished
scan_unreachable unreachable (op ∷ rest) =
    nop_if
      (unreachable
        && stays_unreachable unreachable (instruction op)
        && not (is_noop_opcode (instruction op)))
      op (scan_unreachable (stays_unreachable unreachable (instruction op)) rest)

unfoldable pub remove_unreachable_code : List Opcode → Pass
unfolding scan_unreachable
remove_unreachable_code opcodes = scan_unreachable false opcodes
