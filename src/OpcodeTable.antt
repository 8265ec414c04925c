-- ===== src/OpcodeTable.antt =====
-- compiler/optable.cc: the main definition that is synthesized from the opcodes outside of
-- definitions, and the check for unreachable code. A table is the list of its opcodes.
pub mod Nesting
pub mod Reachable
mod Tests
use vnpforth.Prelude.{ℕ, Bool, true, false, List, [], ◌∷◌, ◌++◌, Option, none, some, if◌then◌else◌}
use vnpforth.Symbol.{Symbol}
use vnpforth.Opcode.{
  Instruction, define, label, end_define, Opcode, created, instruction, get_line, is_define_opcode,
  is_enddefine_opcode, is_jump_opcode, is_label_opcode, is_noop_opcode,
}
use vnpforth.Optimizer.Pass.{is_some}

-- The two tables of `synthesize_main`.
pub record Split : Type 0 where
  pub main_opcodes : List Opcode
  pub function_opcodes : List Opcode

abbrev pub push_front : Bool → Opcode → Split → Split
push_front true op t = record t { main_opcodes = op ∷ t.main_opcodes }
push_front false op t = record t { function_opcodes = op ∷ t.function_opcodes }

-- A definition's first opcode, and those up to its end, are not in the main code.
unfoldable pub stays_main : Bool → Instruction → Bool
unfolding is_define_opcode
stays_main in_main i = if is_some (is_define_opcode i) then false else in_main

unfoldable pub main_after : Bool → Instruction → Bool
unfolding is_enddefine_opcode
main_after in_main i = if is_enddefine_opcode i then true else in_main

unfoldable pub split_main : Bool → List Opcode → Split
unfolding stays_main main_after
split_main in_main [] = record { main_opcodes = []; function_opcodes = [] }
split_main in_main (op ∷ rest) =
    push_front (stays_main in_main (instruction op)) op
      (split_main (main_after (stays_main in_main (instruction op)) (instruction op)) rest)

-- The line of the last of these opcodes.
abbrev pub last_line : Opcode → List Opcode → ℕ
last_line op [] = get_line op
last_line op (next ∷ rest) = last_line next rest

abbrev pub with_main : Symbol → List Opcode → List Opcode → List Opcode → List Opcode
with_main main opcodes functions [] = opcodes
with_main main opcodes functions (op ∷ rest) =
    let n = last_line op rest in
    functions
    ++ (created (define main) (get_line op)
        ∷ ((op ∷ rest) ++ (created (label 0) n ∷ created (end_define main) n ∷ [])))

-- `main` is what the symbol table has under that name.
unfoldable pub synthesize_main : Symbol → List Opcode → List Opcode
unfolding split_main
synthesize_main main opcodes =
    with_main main opcodes (split_main true opcodes).function_opcodes
      (split_main true opcodes).main_opcodes

-- The first opcode that is not a no-op.
unfoldable pub find_non_noop : List Opcode → Option Opcode
unfolding is_noop_opcode
find_non_noop [] = none
find_non_noop (op ∷ rest) = if is_noop_opcode (instruction op) then find_non_noop rest else some op

-- The warning on what stands behind a jump: its line, and the jump's.
abbrev pub warn_unless : Bool → (ℕ × ℕ) → List (ℕ × ℕ) → List (ℕ × ℕ)
warn_unless true w ws = ws
warn_unless false w ws = w ∷ ws

abbrev pub warn_behind : Bool → ℕ → Option Opcode → List (ℕ × ℕ) → List (ℕ × ℕ)
warn_behind false n second ws = ws
warn_behind true n none ws = ws
warn_behind true n (some op) ws =
    warn_unless (is_some (is_label_opcode (instruction op))) (get_line op, n) ws

-- The warnings that are printed, in order.
unfoldable pub unreachable_check : List Opcode → List (ℕ × ℕ)
unfolding find_non_noop is_jump_opcode is_label_opcode
unreachable_check [] = []
unreachable_check (op ∷ rest) =
    warn_behind (is_some (is_jump_opcode (instruction op))) (get_line op) (find_non_noop rest)
      (unreachable_check rest)
