-- ===== src/Parser/Literal.antt =====
-- `to_int`, `to_uint` and `f_integer_literal` of compiler/parser.cc. `long` has any width from that
-- of `int`, which has 32 bits: `long_max` is LONG_MAX, and LONG_MIN is one further below zero than it
-- is above. An `int` is its 32-bit pattern.
pub mod Written
pub mod Range
pub mod Correct
mod Tests
use vnpforth.Prelude.{
  ℕ, ◌+◌, ◌-◌, ◌*◌, ◌%◌, ◌^◌, Bool, true, false, not, ◌&&◌, ◌||◌, List, [], ◌∷◌, Option, none, some,
  ◌==◌, ltb, leb, Text, if◌then◌else◌,
}
use vnpforth.Opcode.{r0, data_stack, load_value, push}
use vnpforth.Parser.{Parser, emits, parse_error, detect_main}

-- What `strtol` and `strtoul` read: white space, a sign, for base 16 the prefix 0x before a digit,
-- and digits up to the first byte that is none.
abbrev pub is_space : ℕ → Bool
is_space c = c == 32 || leb 9 c && leb c 13

unfoldable pub skip_spaces : Text → Text
skip_spaces [] = []
skip_spaces (c ∷ s) = if is_space c then skip_spaces s else c ∷ s

abbrev pub value_of_digit : ℕ → Option ℕ
value_of_digit c =
    if leb b'0' c && leb c b'9'
    then some (c - b'0')
    else if leb b'a' c && leb c b'z'
    then some (c - b'a' + 10)
    else if leb b'A' c && leb c b'Z'
    then some (c - b'A' + 10)
    else none

abbrev pub below_base : ℕ → Option ℕ → Option ℕ
below_base base none = none
below_base base (some v) = if ltb v base then some v else none

unfoldable pub digit_value : ℕ → ℕ → Option ℕ
digit_value base c = below_base base (value_of_digit c)

unfoldable pub read_digits : ℕ → ℕ → Text → ℕ
unfolding digit_value
read_digits base sum [] = sum
read_digits base sum (c ∷ s) = elim (digit_value base c) [
  | some v ↦ read_digits base (sum * base + v) s
  | none ↦ sum
]

abbrev pub first : Text → ℕ
first [] = 0
first (c ∷ s) = c

abbrev pub second : Text → ℕ
second [] = 0
second (c ∷ s) = first s

abbrev pub drop : Text → Text
drop [] = []
drop (c ∷ s) = s

abbrev pub is_some_digit : Option ℕ → Bool
is_some_digit none = false
is_some_digit (some v) = true

unfoldable pub skip_hex_prefix : ℕ → Text → Text
unfolding digit_value
skip_hex_prefix base s =
    if base == 16
      && first s == b'0'
      && (second s == b'x' || second s == b'X')
      && is_some_digit (digit_value base (second (drop s)))
    then drop (drop s)
    else s

abbrev pub has_sign : Text → Bool
has_sign s = first s == b'-' || first s == b'+'

unfoldable pub skip_sign : Text → Text
skip_sign s = if has_sign s then drop s else s

-- A sign and a number of the size.
pub record Signed : Type 0 where
  pub negative : Bool
  pub magnitude : ℕ

unfoldable pub scan_number : ℕ → Text → Signed
unfolding skip_spaces skip_hex_prefix read_digits skip_sign
scan_number base s =
    let t = skip_spaces s in
    record {
      negative = first t == b'-';
      magnitude = read_digits base 0 (skip_hex_prefix base (skip_sign t));
    }

-- A number with `errno`: whether it is ERANGE.
pub record Ranged (A : Type 0) : Type 0 where
  pub value : A
  pub out_of_range : Bool

-- The `repr` of `to_long` and `to_ulong`.
abbrev pub with_sign : Bool → Text → Text
with_sign negative s = if negative then b'-' ∷ s else s

-- The base that the switches choose, and the text that they leave.
unfoldable pub choose_base : Text → ℕ × Text
choose_base ss =
    if first ss == b'%'
    then (2, drop ss)
    else if first ss == b'$'
    then (16, drop ss)
    else if first ss == b'&' || first ss == b'#'
    then (10, drop ss)
    else if first ss == b'0'
    then (if second ss == b'b' || second ss == b'B'
        then (2, drop (drop ss))
        else if second ss == b'o' || second ss == b'O'
        then (8, drop (drop ss))
        else if second ss == b'x' || second ss == b'X'
        then (16, drop (drop ss))
        else (10, ss))
    else (10, ss)

-- `value > INT_MAX || value < INT_MIN`
abbrev pub exceeds_int : Signed → Bool
exceeds_int n = ltb (if n.negative then 2 ^ 31 else 2 ^ 31 - 1) n.magnitude

-- A `long` as an `int`.
abbrev pub int_pattern : Signed → ℕ
int_pattern n =
    if n.negative then (2 ^ 32 - n.magnitude % 2 ^ 32) % 2 ^ 32 else n.magnitude % 2 ^ 32

unfoldable pub int_of : Ranged Signed → Ranged ℕ
int_of n = record {
  value = int_pattern n.value;
  out_of_range = exceeds_int n.value || n.out_of_range;
}

unfoldable pub uint_of : Ranged ℕ → Ranged ℕ
uint_of n = record {
  value = n.value % 2 ^ 32;
  out_of_range = ltb (2 ^ 32 - 1) n.value || n.out_of_range;
}

abbrev pub push_integer : (Text → Text) → ℕ → Parser → Parser
push_integer mangle literal p =
    emits (load_value r0 literal ∷ push r0 data_stack ∷ []) (detect_main mangle p)

module _ (long_max : ℕ) where
  -- `strtol`: where the number does not fit, LONG_MAX or LONG_MIN and ERANGE.
  unfoldable pub as_long : Signed → Ranged Signed
  as_long n =
      let limit = if n.negative then long_max + 1 else long_max in
      if ltb limit n.magnitude
      then record { value = record n { magnitude = limit }; out_of_range = true }
      else record { value = n; out_of_range = false }

  -- `strtoul`: where the number does not fit, ULONG_MAX and ERANGE; a number with a minus sign is
  -- negated as an `unsigned long`.
  unfoldable pub as_ulong : Signed → Ranged ℕ
  as_ulong n =
      let ulong_max = long_max * 2 + 1 in
      if ltb ulong_max n.magnitude
      then record { value = ulong_max; out_of_range = true }
      else record {
        value = if n.negative then (ulong_max + 1 - n.magnitude) % (ulong_max + 1) else n.magnitude;
        out_of_range = false;
      }

  abbrev pub to_long : Bool → Text → ℕ → Ranged Signed
  to_long negative s base = as_long (scan_number base (with_sign negative s))

  abbrev pub to_ulong : Bool → Text → ℕ → Ranged ℕ
  to_ulong negative s base = as_ulong (scan_number base (with_sign negative s))

  unfoldable pub to_int : Text → Ranged ℕ
  unfolding scan_number choose_base skip_sign as_long int_of
  to_int str =
      let (base, digits) = choose_base (skip_sign str) in
      int_of (to_long (first str == b'-') digits base)

  unfoldable pub to_uint : Text → Ranged ℕ
  unfolding scan_number choose_base skip_sign as_ulong uint_of
  to_uint str =
      let (base, digits) = choose_base (skip_sign str) in
      uint_of (to_ulong (first str == b'-') digits base)

  module _ (mangle : Text → Text) where
    unfoldable pub f_integer_literal : Text → Parser → Parser
    unfolding to_int to_uint
    f_integer_literal s p =
        if (to_int s).out_of_range
        then (if first s == b'-'
            then parse_error p
            else if (to_uint s).out_of_range
            then parse_error p
            else push_integer mangle (to_uint s).value p)
        else push_integer mangle (to_int s).value p
