-- ===== src/Opcode.antt =====
-- compiler/opcode.h, operand.h, register.h and stack.h: the intermediate code. An opcode object is
-- an instruction (its class and the fields of that class) with the line and the opcode that it
-- optimizes away. An `int` value is its 32-bit pattern, a label its number.
use vnpforth.Prelude.{ℕ, ◌^◌, ◌-◌, Bool, true, false, Option, none, some, Text}
use vnpforth.Symbol.{Symbol}

pub data Register : Type 0 where
  r0 r1 : Register

unfoldable pub register_equals : Register → Register → Bool
register_equals r0 r0 = true
register_equals r1 r1 = true
register_equals _ _ = false

pub data Stack : Type 0 where
  data_stack return_stack float_stack : Stack

unfoldable pub stack_equals : Stack → Stack → Bool
stack_equals data_stack data_stack = true
stack_equals return_stack return_stack = true
stack_equals float_stack float_stack = true
stack_equals _ _ = false

abbrev pub Label : Type 0
Label = ℕ

abbrev pub Value : Type 0
Value = ℕ

-- The `int` -1.
abbrev pub minus_one : Value
minus_one = 2 ^ 32 - 1

pub data Instruction : Type 0 where
  call define end_define : Symbol → Instruction
  label : Label → Instruction
  assembly : Text → Instruction
  load_value : Register → Value → Instruction
  load_register : Register → Register → Instruction
  load_symbol load_symbol_indirect : Register → Symbol → Instruction
  load_data : Register → ℕ → Instruction
  store_symbol_indirect : Register → Symbol → Instruction
  push pop : Register → Stack → Instruction
  add_value : Register → Value → Instruction
  add_register : Register → Register → Instruction
  subtract_value : Register → Value → Instruction
  subtract_register : Register → Register → Instruction
  jump : Label → Instruction
  jump_zero jump_non_zero : Register → Label → Instruction
  jump_greater_zero jump_less_zero : Register → Label → Instruction
  jump_greater_equal_zero jump_less_equal_zero : Register → Label → Instruction
  jump_equal jump_not_equal : Register → Register → Label → Instruction
  no_op : Instruction

-- `created` has `optimizes_` null; `optimizing` has it set.
pub data Opcode : Type 0 where
  created : Instruction → ℕ → Opcode
  optimizing : Instruction → ℕ → Opcode → Opcode

abbrev pub instruction : Opcode → Instruction
instruction (created i _) = i
instruction (optimizing i _ _) = i

abbrev pub get_line : Opcode → ℕ
get_line (created _ n) = n
get_line (optimizing _ n _) = n

abbrev pub set_optimizes : Opcode → Opcode → Opcode
set_optimizes (created i n) o = optimizing i n o
set_optimizes (optimizing i n _) o = optimizing i n o

-- The class tests: what a non-null result gives access to, or `none` for null.
unfoldable pub is_call_opcode : Instruction → Option Symbol
is_call_opcode (call s) = some s
is_call_opcode _ = none

unfoldable pub is_branching_opcode : Instruction → Option Label
is_branching_opcode (jump l) = some l
is_branching_opcode (jump_zero _ l) = some l
is_branching_opcode (jump_non_zero _ l) = some l
is_branching_opcode (jump_greater_zero _ l) = some l
is_branching_opcode (jump_less_zero _ l) = some l
is_branching_opcode (jump_greater_equal_zero _ l) = some l
is_branching_opcode (jump_less_equal_zero _ l) = some l
is_branching_opcode (jump_equal _ _ l) = some l
is_branching_opcode (jump_not_equal _ _ l) = some l
is_branching_opcode _ = none

unfoldable pub is_jump_opcode : Instruction → Option Label
is_jump_opcode (jump l) = some l
is_jump_opcode _ = none

unfoldable pub is_noop_opcode : Instruction → Bool
is_noop_opcode no_op = true
is_noop_opcode _ = false

unfoldable pub is_label_opcode : Instruction → Option Label
is_label_opcode (label l) = some l
is_label_opcode _ = none

unfoldable pub is_push_opcode : Instruction → Option (Register × Stack)
is_push_opcode (push r s) = some (r, s)
is_push_opcode _ = none

unfoldable pub is_pop_opcode : Instruction → Option (Register × Stack)
is_pop_opcode (pop r s) = some (r, s)
is_pop_opcode _ = none

unfoldable pub is_define_opcode : Instruction → Option Symbol
is_define_opcode (define s) = some s
is_define_opcode _ = none

unfoldable pub is_enddefine_opcode : Instruction → Bool
is_enddefine_opcode (end_define _) = true
is_enddefine_opcode _ = false

unfoldable pub is_assembly_opcode : Instruction → Bool
is_assembly_opcode (assembly _) = true
is_assembly_opcode _ = false
