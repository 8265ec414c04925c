-- ===== src/Optimizer/SmallFunctions.antt =====
-- `OpcodeTable::inline_small_functions` of compiler/optimize.cc.
pub mod Candidates
pub mod Splices
pub mod Correct
pub mod Plain
use vnpforth.Prelude.{
  ℕ, ◌+◌, Bool, true, false, not, ◌&&◌, ◌||◌, List, [], ◌∷◌, ◌++◌, Option, none, some, ltb,
  if◌then◌else◌,
}
use vnpforth.Symbol.{Symbol, same_symbol}
use vnpforth.Opcode.{
  Instruction, Opcode, instruction, is_assembly_opcode, is_branching_opcode, is_call_opcode,
  is_define_opcode, is_enddefine_opcode,
}
use vnpforth.Optimizer.Pass.{
  Pass, finished, keep, replaced_by, replace_with_nop, is_executable, is_some, SymbolSet, holds,
}

abbrev pub small_function_opcode_limit : ℕ
small_function_opcode_limit = 10

-- The variables of the first loop.
pub record CandidateScan : Type 0 where
  pub current_definition : Option Symbol
  pub executable_opcodes : ℕ
  pub is_not_candidate : Bool
  pub inline_candidates : SymbolSet

-- Its body: a definition begins, ends, or goes on.
abbrev pub begin_candidate : Symbol → CandidateScan → CandidateScan
begin_candidate s v = record v {
  current_definition = some s;
  executable_opcodes = 0;
  is_not_candidate = false;
}

abbrev pub end_candidate : CandidateScan → CandidateScan
end_candidate v = record v {
  current_definition = none;
  inline_candidates =
      if v.is_not_candidate
      then v.inline_candidates
      else v.current_definition ∷ v.inline_candidates;
}

abbrev pub one_if : Bool → ℕ
one_if true = 1
one_if false = 0

unfoldable pub disqualifies : Instruction → Bool
unfolding is_branching_opcode is_assembly_opcode
disqualifies i = is_some (is_branching_opcode i) || is_assembly_opcode i

abbrev pub go_on_candidate : Instruction → CandidateScan → CandidateScan
go_on_candidate i v =
    if is_some v.current_definition
    then record v {
      executable_opcodes = v.executable_opcodes + one_if (is_executable i);
      is_not_candidate =
          v.is_not_candidate
          || disqualifies i
          || ltb small_function_opcode_limit (v.executable_opcodes + one_if (is_executable i));
    }
    else v

unfoldable pub step_candidate : Instruction → CandidateScan → CandidateScan
unfolding is_define_opcode is_enddefine_opcode is_executable disqualifies
step_candidate i v = elim (is_define_opcode i) [
  | some s ↦ begin_candidate s v
  | none ↦ if is_enddefine_opcode i then end_candidate v else go_on_candidate i v
]

-- The first loop: the set that it builds.
unfoldable pub find_candidates : List Opcode → CandidateScan → SymbolSet
unfolding step_candidate
find_candidates [] v = v.inline_candidates
find_candidates (op ∷ rest) v = find_candidates rest (step_candidate (instruction op) v)

abbrev pub no_candidates : CandidateScan
no_candidates = record {
  current_definition = none;
  executable_opcodes = 0;
  is_not_candidate = false;
  inline_candidates = [];
}

-- The map from a symbol to the opcodes of its splice: `splices[symbol].push_back (opcode)`.
abbrev pub SpliceMap : Type 0
SpliceMap = List (Symbol × List Opcode)

unfoldable pub find_splice : Symbol → SpliceMap → Option (List Opcode)
find_splice s [] = none
find_splice s ((d, ops) ∷ rest) = if same_symbol d s then some ops else find_splice s rest

unfoldable pub push_splice : Symbol → Opcode → SpliceMap → SpliceMap
push_splice s op [] = (s, op ∷ []) ∷ []
push_splice s op ((d, ops) ∷ rest) =
    if same_symbol d s then (d, ops ++ op ∷ []) ∷ rest else (d, ops) ∷ push_splice s op rest

-- The variables of the second loop.
pub record SpliceScan : Type 0 where
  pub splicing : Option Symbol
  pub splices : SpliceMap

abbrev pub push_current : Option Symbol → Opcode → SpliceMap → SpliceMap
push_current none op m = m
push_current (some s) op m = push_splice s op m

unfoldable pub step_splice : SymbolSet → Opcode → SpliceScan → SpliceScan
unfolding is_define_opcode is_enddefine_opcode is_executable push_splice
step_splice candidates op v = elim (is_define_opcode (instruction op)) [
  | some s ↦ if holds candidates s then record v { splicing = some s } else v
  | none ↦
      if is_enddefine_opcode (instruction op)
      then record v { splicing = none }
      else if is_executable (instruction op)
      then record v { splices = push_current v.splicing op v.splices }
      else v
]

unfoldable pub build_splices : SymbolSet → List Opcode → SpliceScan → SpliceMap
unfolding step_splice
build_splices candidates [] v = v.splices
build_splices candidates (op ∷ rest) v = build_splices candidates rest (step_splice candidates op v)

-- The third loop.
abbrev pub splice_of_call : SpliceMap → Option Symbol → Option (List Opcode)
splice_of_call m none = none
splice_of_call m (some s) = find_splice s m

abbrev pub splice_or_keep : Opcode → Option (List Opcode) → Pass → Pass
splice_or_keep op none p = keep op p
splice_or_keep op (some ops) p = replaced_by (replace_with_nop op ∷ ops) p

unfoldable pub inline_calls : SpliceMap → List Opcode → Pass
unfolding is_call_opcode find_splice
inline_calls m [] = finished
inline_calls m (op ∷ rest) =
    splice_or_keep op (splice_of_call m (is_call_opcode (instruction op))) (inline_calls m rest)

abbrev pub splices_of : List Opcode → SpliceMap
splices_of opcodes =
    build_splices (find_candidates opcodes no_candidates) opcodes
      (record { splicing = none; splices = [] })

unfoldable pub inline_small_functions : List Opcode → Pass
unfolding find_candidates build_splices inline_calls
inline_small_functions opcodes = inline_calls (splices_of opcodes) opcodes
