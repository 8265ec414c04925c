-- ===== src/OpcodeTable/Reachable.antt =====
-- `unreachable_check` of compiler/optable.cc next to `remove_unreachable_code` of
-- compiler/optimize.cc.
use vnpforth.Prelude.{Bool, true, false, List, [], ◌∷◌, Option, none, some, ◌≡◌, refl, arith}
use vnpforth.Opcode.{Opcode, instruction, is_label_opcode}
use vnpforth.Optimizer.Pass.{is_some}
use vnpforth.Optimizer.Unreachable.{scan_unreachable, remove_unreachable_code}
use vnpforth.OpcodeTable.{find_non_noop, unreachable_check}

-- Nothing stands behind a jump, or a label.
abbrev reaches_label : Option Opcode → Bool
reaches_label none = true
reaches_label (some op) = is_some (is_label_opcode (instruction op))

unreachable_check-scan :
    (u : Bool) (P : List Opcode)
    → (u ≡ true → reaches_label (find_non_noop P) ≡ true)
    → unreachable_check P ≡ []
    → (scan_unreachable u P).optimizations ≡ 0
unfolding unreachable_check scan_unreachable
unreachable_check-scan true [] r h = refl
unreachable_check-scan false [] r h = refl
unreachable_check-scan true (op ∷ rest) r h =
    ground (arith, unreachable_check-scan true rest, unreachable_check-scan false rest)
unreachable_check-scan false (op ∷ rest) r h =
    ground (arith, unreachable_check-scan true rest, unreachable_check-scan false rest)

-- Where unreachable_check prints no warning, the removal of unreachable code counts no
-- optimization.
pub unreachable_check-remove_unreachable_code :
    (P : List Opcode) → unreachable_check P ≡ [] → (remove_unreachable_code P).optimizations ≡ 0
unfolding remove_unreachable_code
unreachable_check-remove_unreachable_code P h = unreachable_check-scan false P (λ e. cc) h
