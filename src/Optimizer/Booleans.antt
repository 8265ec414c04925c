-- ===== src/Optimizer/Booleans.antt =====
-- `OpcodeTable::inline_booleans` of compiler/optimize.cc.
pub mod Correct
use vnpforth.Prelude.{
  Bool, true, false, ◌||◌, List, [], ◌∷◌, Option, none, some, Text, text_eq, codes, if◌then◌else◌,
}
use vnpforth.Symbol.{Symbol}
use vnpforth.Opcode.{
  Opcode, created, load_value, push, r0, data_stack, Value, minus_one, instruction, get_line,
  is_call_opcode,
}
use vnpforth.Optimizer.Pass.{Pass, finished, keep, replaced_by, replace_with_nop}

-- `Mangler::mangle ("TRUE")` and `Mangler::mangle ("FALSE")`.
abbrev pub mangled_true : Text
mangled_true = codes "v4_true"

abbrev pub mangled_false : Text
mangled_false = codes "v4_false"

abbrev pub is_boolean : Option Symbol → Bool
is_boolean none = false
is_boolean (some s) = text_eq s.name mangled_true || text_eq s.name mangled_false

abbrev pub boolean_value : Option Symbol → Value
boolean_value none = 0
boolean_value (some s) = if text_eq s.name mangled_true then minus_one else 0

abbrev pub boolean_opcodes : Opcode → Value → List Opcode
boolean_opcodes op value =
    replace_with_nop op
    ∷ created (load_value r0 value) (get_line op)
    ∷ created (push r0 data_stack) (get_line op)
    ∷ []

abbrev pub expand_if : Bool → Opcode → List Opcode → Pass → Pass
expand_if true op ops p = replaced_by ops p
expand_if false op ops p = keep op p

unfoldable pub inline_booleans : List Opcode → Pass
unfolding is_call_opcode
inline_booleans [] = finished
inline_booleans (op ∷ rest) =
    expand_if (is_boolean (is_call_opcode (instruction op))) op
      (boolean_opcodes op (boolean_value (is_call_opcode (instruction op)))) (inline_booleans rest)
