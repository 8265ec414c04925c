-- ===== src/Parser/Names/Tests.antt =====
-- Tests of declarations and strings, and the witness of the theorem about names.
use vnpforth.Prelude.{◌-◌, ◌^◌, List, [], ◌∷◌, true, codes, ◌≡◌, refl}
use vnpforth.Opcode.{r0, data_stack, created, assembly, load_data, load_value, push}
use vnpforth.Mangler.{mangle}
use vnpforth.Parser.Tests.{fresh}
use vnpforth.Parser.Declarations.{f_code}
use vnpforth.Parser.Strings.{f_string_literal}
use vnpforth.Parser.Names.{
  Call, variable_call, constant_call, word_call, define_call, array_call, names_once, run_calls,
  names_once-run_calls,
}

code_line :
    (f_code (codes ".ascii \"a#\\\"b\"  # a string") fresh).opcodes
    ≡ created (assembly (codes ".ascii \"a#\\\"b\"")) 1 ∷ []
unfolding f_code
code_line = refl

string_pushed :
    (f_string_literal mangle (codes "S\" hi\"") fresh).opcodes
    ≡ created (load_data r0 0) 1
      ∷ created (push r0 data_stack) 1
      ∷ created (load_value r0 2) 1
      ∷ created (push r0 data_stack) 1
      ∷ []
unfolding f_string_literal
string_pushed = refl

abbrev calls : List Call
calls =
    variable_call (codes "x")
    ∷ word_call (codes "X")
    ∷ array_call (codes "buffer") (codes "0x10") (codes "CHARS")
    ∷ constant_call (codes "x")
    ∷ define_call (codes "main")
    ∷ []

names_once-run_calls_example :
    names_once mangle (run_calls mangle (2 ^ 31 - 1) calls fresh).symbols ≡ true
names_once-run_calls_example = names_once-run_calls mangle (2 ^ 31 - 1) calls fresh refl
