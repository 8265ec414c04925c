-- ===== src/OpcodeTable/Tests.antt =====
-- Witnesses: the theorems about the opcode table at `5 : five 5 ;` and at a jump to a label.
use vnpforth.Prelude.{List, [], ◌∷◌, ◌≡◌, refl, codes, true, false}
use vnpforth.Symbol.{Symbol, word}
use vnpforth.Opcode.{
  r0, data_stack, Opcode, created, define, end_define, label, load_value, push, jump, no_op,
}
use vnpforth.Semantics.Layout.{is_nested}
use vnpforth.Optimizer.Unreachable.{remove_unreachable_code}
use vnpforth.OpcodeTable.{synthesize_main, unreachable_check}
use vnpforth.OpcodeTable.Nesting.{is_closed, nested-synthesize_main}
use vnpforth.OpcodeTable.Reachable.{unreachable_check-remove_unreachable_code}

abbrev five : Symbol
five = record { name = codes "v4_five"; id = 1; line = 2; kind = word }

abbrev main_word : Symbol
main_word = record { name = codes "main"; id = 0; line = 1; kind = word }

abbrev parsed : List Opcode
parsed =
    created (load_value r0 5) 1
    ∷ created (push r0 data_stack) 1
    ∷ created (define five) 2
    ∷ created (load_value r0 5) 2
    ∷ created (push r0 data_stack) 2
    ∷ created (label 1) 2
    ∷ created (end_define five) 2
    ∷ []

parsed-closed : is_closed false parsed ≡ true
unfolding is_closed
parsed-closed = refl

nested-synthesize_main_example : is_nested false (synthesize_main main_word parsed) ≡ true
nested-synthesize_main_example = nested-synthesize_main main_word parsed parsed-closed

abbrev reachable : List Opcode
reachable =
    created (jump 1) 1 ∷ created no_op 1 ∷ created (label 1) 1 ∷ created (load_value r0 5) 2 ∷ []

reachable-checked : unreachable_check reachable ≡ []
unfolding unreachable_check
reachable-checked = refl

unreachable_check-remove_unreachable_code_example :
    (remove_unreachable_code reachable).optimizations ≡ 0
unreachable_check-remove_unreachable_code_example =
    unreachable_check-remove_unreachable_code reachable reachable-checked
