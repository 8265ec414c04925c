-- ===== src/Parser/Literal/Written.antt =====
-- The integer literals that compiler/forth.l passes to `f_integer_literal`, and the numbers that they
-- are written for.
use vnpforth.Prelude.{
  ℕ, ◌+◌, ◌*◌, ◌≤◌, Bool, true, false, ◌&&◌, [], ◌∷◌, ◌++◌, Option, none, some, ◌==◌, Text, codes,
  ◌≡◌, ◌∙◌, arith, Option-cases, inl, inr,
}
use vnpforth.Parser.Literal.{is_space, digit_value, read_digits, is_some_digit}

pub data Sign : Type 0 where
  unsigned plus minus : Sign

pub data Prefix : Type 0 where
  plain percent dollar ampersand hash : Prefix
  small_b capital_b small_o capital_o small_x capital_x : Prefix

abbrev pub sign_text : Sign → Text
sign_text unsigned = []
sign_text plus = codes "+"
sign_text minus = codes "-"

abbrev pub prefix_text : Prefix → Text
prefix_text plain = []
prefix_text percent = codes "%"
prefix_text dollar = codes "$"
prefix_text ampersand = codes "&"
prefix_text hash = codes "#"
prefix_text small_b = codes "0b"
prefix_text capital_b = codes "0B"
prefix_text small_o = codes "0o"
prefix_text capital_o = codes "0O"
prefix_text small_x = codes "0x"
prefix_text capital_x = codes "0X"

abbrev pub base_of : Prefix → ℕ
base_of plain = 10
base_of percent = 2
base_of dollar = 16
base_of ampersand = 10
base_of hash = 10
base_of small_b = 2
base_of capital_b = 2
base_of small_o = 8
base_of capital_o = 8
base_of small_x = 16
base_of capital_x = 16

abbrev pub all_digits : ℕ → Text → Bool
all_digits base [] = true
all_digits base (c ∷ s) = is_some_digit (digit_value base c) && all_digits base s

-- One digit or more of the base.
abbrev pub is_number : ℕ → Text → Bool
is_number base [] = false
is_number base (c ∷ s) = all_digits base (c ∷ s)

-- A literal: a sign, a prefix and the digits.
pub record Literal : Type 0 where
  pub sign : Sign
  pub prefix : Prefix
  pub digits : Text

abbrev pub literal_text : Literal → Text
literal_text l = sign_text l.sign ++ (prefix_text l.prefix ++ l.digits)

abbrev pub digit_or_zero : Option ℕ → ℕ
digit_or_zero none = 0
digit_or_zero (some v) = v

-- What a digit counts that stands before the text.
abbrev pub place : ℕ → Text → ℕ
place base [] = 1
place base (c ∷ s) = base * place base s

-- The number that the digits are written for.
abbrev pub denoted : ℕ → Text → ℕ
denoted base [] = 0
denoted base (c ∷ s) = digit_or_zero (digit_value base c) * place base s + denoted base s

abbrev pub is_minus : Sign → Bool
is_minus minus = true
is_minus _ = false

abbrev pub size_of : Literal → ℕ
size_of l = denoted (base_of l.prefix) l.digits

sum_step : (sum base v p rest : ℕ) → (sum * base + v) * p + rest ≡ sum * (base * p) + (v * p + rest)
sum_step sum base v p rest = grind arith

pub read_digits-denoted :
    (base sum : ℕ) (s : Text)
    → all_digits base s ≡ true
    → read_digits base sum s ≡ sum * place base s + denoted base s
unfolding read_digits
read_digits-denoted base sum [] h = omega arith
read_digits-denoted base sum (c ∷ s) h = elim (Option-cases (digit_value base c)) [
  | inl e ↦ absurd (cc (rw e at h))
  | inr (v, e) ↦
      rw (read_digits, e)
        (read_digits-denoted base (sum * base + v) s (rw e at h)
          ∙ sum_step sum base v (place base s) (denoted base s))
]

-- A digit is no space, no sign and no x.
pub digit_lem :
    (base c : ℕ)
    → base ≤ 16
    → is_some_digit (digit_value base c) ≡ true
    → (is_space c ≡ false)
      × ((c == b'-') ≡ false)
      × ((c == b'+') ≡ false)
      × ((c == b'x') ≡ false)
      × ((c == b'X') ≡ false)
unfolding digit_value
digit_lem base c h e = ground arith
