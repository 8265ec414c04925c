-- ===== src/Parser/Literal/Tests.antt =====
-- Tests of integer literals, and the witness of the theorem about them.
use vnpforth.Prelude.{ℕ, ◌-◌, ◌^◌, false, [], ◌∷◌, codes, ◌≡◌, refl, arith}
use vnpforth.Opcode.{r0, data_stack, load_value, push, created}
use vnpforth.Mangler.{mangle}
use vnpforth.Parser.{parse_error}
use vnpforth.Parser.Tests.{fresh}
use vnpforth.Parser.Literal.{digit_value, to_int, push_integer, f_integer_literal}
use vnpforth.Parser.Literal.Written.{Literal, minus, small_x}
use vnpforth.Parser.Literal.Range.{IsLiteral}
use vnpforth.Parser.Literal.Correct.{f_integer_literal-literal}

abbrev wide : ℕ
wide = 2 ^ 63 - 1

minus_one_pushed :
    (f_integer_literal wide mangle (codes "-1") fresh).opcodes
    ≡ created (load_value r0 4294967295) 1 ∷ created (push r0 data_stack) 1 ∷ []
unfolding f_integer_literal mangle
minus_one_pushed = refl

binary : to_int wide (codes "+0b101") ≡ record { value = 5; out_of_range = false }
unfolding to_int
binary = refl

too_large : f_integer_literal (2 ^ 31 - 1) mangle (codes "4294967296") fresh ≡ parse_error fresh
unfolding f_integer_literal
too_large = refl

abbrev lowest : Literal
lowest = record { sign = minus; prefix = small_x; digits = codes "80000000" }

lowest-IsLiteral : IsLiteral lowest
unfolding digit_value
lowest-IsLiteral = refl

f_integer_literal-literal_example :
    f_integer_literal (2 ^ 31 - 1) mangle (codes "-0x80000000") fresh
    ≡ push_integer mangle 2147483648 fresh
unfolding digit_value
f_integer_literal-literal_example =
    f_integer_literal-literal (2 ^ 31 - 1) mangle lowest fresh (omega arith) lowest-IsLiteral
