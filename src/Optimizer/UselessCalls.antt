-- ===== src/Optimizer/UselessCalls.antt =====
-- `OpcodeTable::remove_useless_calls` of compiler/optimize.cc.
pub mod Correct
mod Found
use vnpforth.Prelude.{
  Bool, true, false, not, ◌&&◌, ◌||◌, List, [], ◌∷◌, Option, none, some, if◌then◌else◌,
}
use vnpforth.Symbol.{Symbol}
use vnpforth.Opcode.{
  Instruction, Opcode, instruction, is_call_opcode, is_define_opcode, is_enddefine_opcode,
  is_label_opcode, is_noop_opcode,
}
use vnpforth.Optimizer.Pass.{Pass, finished, is_some, nop_if, is_executable, SymbolSet, holds}

-- The variables of the first loop.
pub record EmptyScan : Type 0 where
  pub current_definition : Option Symbol
  pub has_executable_opcodes : Bool
  pub empty_functions : SymbolSet

-- Its body: a definition begins, ends, or goes on.
abbrev pub begin_empty_scan : Symbol → EmptyScan → EmptyScan
begin_empty_scan s v = record v { current_definition = some s; has_executable_opcodes = false }

abbrev pub end_empty_scan : EmptyScan → EmptyScan
end_empty_scan v = record v {
  current_definition = none;
  empty_functions =
      if v.has_executable_opcodes
      then v.empty_functions
      else v.current_definition ∷ v.empty_functions;
}

abbrev pub go_on_empty_scan : Bool → EmptyScan → EmptyScan
go_on_empty_scan executable v =
    if is_some v.current_definition
    then record v { has_executable_opcodes = v.has_executable_opcodes || executable }
    else v

unfoldable pub step_empty_scan : Instruction → EmptyScan → EmptyScan
unfolding is_define_opcode is_enddefine_opcode is_executable
step_empty_scan i v = elim (is_define_opcode i) [
  | some s ↦ begin_empty_scan s v
  | none ↦ if is_enddefine_opcode i then end_empty_scan v else go_on_empty_scan (is_executable i) v
]

-- The first loop: the set that it builds.
unfoldable pub find_empty_functions : List Opcode → EmptyScan → SymbolSet
unfolding step_empty_scan
find_empty_functions [] v = v.empty_functions
find_empty_functions (op ∷ rest) v = find_empty_functions rest (step_empty_scan (instruction op) v)

abbrev pub no_scan : EmptyScan
no_scan = record { current_definition = none; has_executable_opcodes = false; empty_functions = [] }

-- The second loop.
abbrev pub calls_empty : SymbolSet → Option Symbol → Bool
calls_empty empty none = false
calls_empty empty (some s) = holds empty s

unfoldable pub remove_calls : SymbolSet → List Opcode → Pass
unfolding is_call_opcode
remove_calls empty [] = finished
remove_calls empty (op ∷ rest) =
    nop_if (calls_empty empty (is_call_opcode (instruction op))) op (remove_calls empty rest)

unfoldable pub remove_useless_calls : List Opcode → Pass
unfolding find_empty_functions remove_calls
remove_useless_calls opcodes = remove_calls (find_empty_functions opcodes no_scan) opcodes
