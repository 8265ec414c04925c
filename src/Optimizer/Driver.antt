-- ===== src/Optimizer/Driver.antt =====
-- `OpcodeTable::optimize_code` of compiler/optimize.cc. The source adds up eight calls in one
-- expression, whose order C++ leaves open; the model takes them from left to right.
pub mod Quiet
pub mod Ends
pub mod Correct
pub mod Library
pub mod Improved
use vnpforth.Prelude.{ℕ, zero, suc, ◌+◌, Bool, true, false, List, Option, none, some, ◌>>=◌, ◌==◌}
use vnpforth.Opcode.{Opcode}
use vnpforth.Optimizer.Pass.{Pass}
use vnpforth.Optimizer.Unreachable.{remove_unreachable_code}
use vnpforth.Optimizer.Jumps.{remove_unnecessary_jumps}
use vnpforth.Optimizer.UselessCalls.{remove_useless_calls}
use vnpforth.Optimizer.Booleans.{inline_booleans}
use vnpforth.Optimizer.SmallFunctions.{inline_small_functions}
use vnpforth.Optimizer.PushPop.{replace_adjacent_push_pop_pairs}
use vnpforth.Optimizer.Relocate.{relocate_suboptimal_labels}
use vnpforth.Optimizer.Labels.{remove_unnecessary_labels}

abbrev pub iterations_limit : ℕ
iterations_limit = 32

-- A pass after others, its count added to theirs.
abbrev pub after : Pass → Pass → Pass
after p q = record q { optimizations = p.optimizations + q.optimizations }

abbrev pub first_passes : List Opcode → Pass
first_passes ops =
    let a = remove_unreachable_code ops in
    let b = after a (remove_unnecessary_jumps a.opcodes) in
    let c = after b (remove_useless_calls b.opcodes) in
    let d = after c (inline_booleans c.opcodes) in
    let e = after d (inline_small_functions d.opcodes) in
    after e (replace_adjacent_push_pop_pairs e.opcodes)

-- One round: `is_optimizing` is the sum of the counts.
unfoldable pub optimize_round : List Opcode → Option Pass
optimize_round ops = do
  let f = first_passes ops
  g ← relocate_suboptimal_labels f.opcodes
  let h = after f g
  some (after h (remove_unnecessary_labels h.opcodes))

-- What `optimize_code` leaves: the table, and whether it prints the warning.
pub record Optimized : Type 0 where
  pub opcodes : List Opcode
  pub limit_reached : Bool

-- The loop, with the number of rounds that the limit leaves.
unfoldable pub optimize_loop : ℕ → List Opcode → Option Optimized
optimize_loop zero ops = some (record { opcodes = ops; limit_reached = true })
optimize_loop (suc left) ops = optimize_round ops >>= λ p. elim (p.optimizations == 0) [
  | true ↦ some (record { opcodes = p.opcodes; limit_reached = left == 0 })
  | false ↦ optimize_loop left p.opcodes
]

unfoldable pub optimize_code : List Opcode → Option Optimized
unfolding optimize_round optimize_loop
optimize_code ops = optimize_loop iterations_limit ops
