-- ===== src/Optimizer/Pass.antt =====
-- What the passes of compiler/optimize.cc share: the replacement of an opcode, and the result of a
-- pass, the new opcodes with the number of optimizations. A pass writes each result opcode once, in
-- order, so it is a recursion that builds the new list.
pub mod Run
use vnpforth.Prelude.{ℕ, ◌+◌, Bool, true, false, not, ◌||◌, List, [], ◌∷◌, ◌++◌, Option, none, some}
use vnpforth.Symbol.{Symbol, same_symbol}
use vnpforth.Opcode.{
  Instruction, is_label_opcode, is_noop_opcode, Opcode, created, no_op, get_line, set_optimizes,
}

pub record Pass : Type 0 where
  pub opcodes : List Opcode
  pub optimizations : ℕ

abbrev pub finished : Pass
finished = record { opcodes = []; optimizations = 0 }

abbrev pub keep : Opcode → Pass → Pass
keep op p = record p { opcodes = op ∷ p.opcodes }

abbrev pub replaced_by : List Opcode → Pass → Pass
replaced_by ops p = record p { opcodes = ops ++ p.opcodes; optimizations = p.optimizations + 1 }

-- A pointer test.
abbrev pub is_some {ℓ} : {A : Type ℓ} → Option A → Bool
is_some none = false
is_some (some _) = true

-- The replacement records the opcode that it optimizes away.
abbrev pub replace_with : Opcode → Opcode → Opcode
replace_with op replacement = set_optimizes replacement op

abbrev pub replace_with_nop : Opcode → Opcode
replace_with_nop op = replace_with op (created no_op (get_line op))

-- Replaces the opcode by a no-op, or leaves it.
abbrev pub nop_if : Bool → Opcode → Pass → Pass
nop_if true op p = replaced_by (replace_with_nop op ∷ []) p
nop_if false op p = keep op p

-- The opcodes that the passes count as executable.
unfoldable pub is_executable : Instruction → Bool
unfolding is_label_opcode is_noop_opcode
is_executable i = not (is_some (is_label_opcode i) || is_noop_opcode i)

-- A set of pointers to symbols, null among them.
abbrev pub SymbolSet : Type 0
SymbolSet = List (Option Symbol)

abbrev pub points_to : Option Symbol → Symbol → Bool
points_to none s = false
points_to (some d) s = same_symbol d s

abbrev pub holds : SymbolSet → Symbol → Bool
holds [] s = false
holds (d ∷ ds) s = points_to d s || holds ds s
