-- ===== src/Parser/Literal/Range.antt =====
-- The integer literals of compiler/parser.cc: what is in range, and what is pushed.
use vnpforth.Prelude.{
  ℕ, ◌-◌, ◌%◌, ◌^◌, ◌≤◌, Bool, true, false, ◌&&◌, [], ◌∷◌, ◌++◌, ◌==◌, ltb, leb, Text,
  if◌then◌else◌, ◌≡◌, ◌∙◌, refl, arith,
}
use vnpforth.Parser.Literal.{
  is_space, skip_spaces, digit_value, read_digits, first, is_some_digit, skip_hex_prefix, skip_sign,
  has_sign, Signed, scan_number, choose_base, with_sign, as_long, as_ulong, int_of, uint_of, to_int,
  to_uint, int_pattern, exceeds_int,
}
use vnpforth.Parser.Literal.Written.{
  Sign, Prefix, unsigned, plus, minus, plain, percent, dollar, ampersand, hash, small_b, capital_b,
  small_o, capital_o, small_x, capital_x, sign_text, prefix_text, base_of, all_digits, is_number,
  Literal, literal_text, denoted, is_minus, size_of, read_digits-denoted, digit_lem,
}

no_hex_prefix :
    (base c : ℕ) (s : Text)
    → base ≤ 16
    → all_digits base s ≡ true
    → skip_hex_prefix base (c ∷ s) ≡ c ∷ s
unfolding skip_hex_prefix
no_hex_prefix base c [] b h = ground arith
no_hex_prefix base c (d ∷ s) b h =
    let (sp, m, p, x, y) = digit_lem base d b (ground arith) in ground arith

skip_no_space : (c : ℕ) (s : Text) → is_space c ≡ false → skip_spaces (c ∷ s) ≡ c ∷ s
unfolding skip_spaces
skip_no_space c s h = rw h refl

read_all : (base : ℕ) (s : Text) → all_digits base s ≡ true → read_digits base 0 s ≡ denoted base s
read_all base s h = read_digits-denoted base 0 s h ∙ omega arith

scan_number-digits :
    (base : ℕ) (negative : Bool) (s : Text)
    → base ≤ 16
    → is_number base s ≡ true
    → scan_number base (with_sign negative s)
      ≡ record { negative = negative; magnitude = denoted base s }
unfolding scan_number skip_sign
scan_number-digits base negative [] b h = absurd (cc)
scan_number-digits base true (c ∷ s) b h =
    rw (no_hex_prefix base c s b (ground arith), read_all base (c ∷ s) h) refl
scan_number-digits base false (c ∷ s) b h =
    let (sp, m, p, x, y) = digit_lem base c b (ground arith) in
    rw
      (skip_no_space c s sp, m, p, no_hex_prefix base c s b (ground arith), read_all base (c ∷ s) h)
      refl

base_small : (p : Prefix) → base_of p ≤ 16
base_small plain = omega arith
base_small percent = omega arith
base_small dollar = omega arith
base_small ampersand = omega arith
base_small hash = omega arith
base_small small_b = omega arith
base_small capital_b = omega arith
base_small small_o = omega arith
base_small capital_o = omega arith
base_small small_x = omega arith
base_small capital_x = omega arith

decimal_digit :
    (c : ℕ) → is_some_digit (digit_value 10 c) ≡ true → (leb b'0' c && leb c b'9') ≡ true
unfolding digit_value
decimal_digit c h = ground arith

choose_plain : (s : Text) → is_number 10 s ≡ true → choose_base s ≡ (10, s)
unfolding choose_base
choose_plain [] h = absurd (cc)
choose_plain (c ∷ []) h = ground (arith, decimal_digit c)
choose_plain (c ∷ d ∷ s) h = ground (arith, decimal_digit c, decimal_digit d)

choose_base-prefix :
    (p : Prefix) (s : Text)
    → is_number (base_of p) s ≡ true
    → choose_base (prefix_text p ++ s) ≡ (base_of p, s)
unfolding choose_base
choose_base-prefix plain s h = choose_plain s h
choose_base-prefix percent s h = refl
choose_base-prefix dollar s h = refl
choose_base-prefix ampersand s h = refl
choose_base-prefix hash s h = refl
choose_base-prefix small_b s h = refl
choose_base-prefix capital_b s h = refl
choose_base-prefix small_o s h = refl
choose_base-prefix capital_o s h = refl
choose_base-prefix small_x s h = refl
choose_base-prefix capital_x s h = refl

signless :
    (p : Prefix) (s : Text) → is_number (base_of p) s ≡ true → has_sign (prefix_text p ++ s) ≡ false
signless plain [] h = refl
signless plain (c ∷ s) h = ground (arith, decimal_digit c)
signless percent s h = refl
signless dollar s h = refl
signless ampersand s h = refl
signless hash s h = refl
signless small_b s h = refl
signless capital_b s h = refl
signless small_o s h = refl
signless capital_o s h = refl
signless small_x s h = refl
signless capital_x s h = refl

-- A literal of a sign, a prefix and digits of its base.
abbrev pub IsLiteral : Literal → Type 0
IsLiteral l = is_number (base_of l.prefix) l.digits ≡ true

skip_sign-text :
    (g : Sign) (p : Prefix) (s : Text)
    → is_number (base_of p) s ≡ true
    → skip_sign (sign_text g ++ (prefix_text p ++ s)) ≡ prefix_text p ++ s
unfolding skip_sign
skip_sign-text unsigned p s h = rw (signless p s h) refl
skip_sign-text plus p s h = refl
skip_sign-text minus p s h = refl

pub first-is_minus :
    (g : Sign) (p : Prefix) (s : Text)
    → is_number (base_of p) s ≡ true
    → (first (sign_text g ++ (prefix_text p ++ s)) == b'-') ≡ is_minus g
first-is_minus unsigned p s h = ground (arith, signless p s h)
first-is_minus plus p s h = refl
first-is_minus minus p s h = refl

-- What `strtol` and `strtoul` scan of a literal.
abbrev pub scanned : Literal → Signed
scanned l = record { negative = is_minus l.sign; magnitude = size_of l }

to_int-scan :
    (m : ℕ) (s : Text)
    → to_int m s
      ≡ int_of (
          as_long m (
            scan_number
              (choose_base (skip_sign s)).0
              (with_sign (first s == b'-') (choose_base (skip_sign s)).1)))
unfolding to_int
to_int-scan m s = refl

pub to_int-literal :
    (m : ℕ) (l : Literal) → IsLiteral l → to_int m (literal_text l) ≡ int_of (as_long m (scanned l))
to_int-literal m l h =
    rw
      (
        to_int-scan m (literal_text l),
        first-is_minus l.sign l.prefix l.digits h,
        skip_sign-text l.sign l.prefix l.digits h,
        choose_base-prefix l.prefix l.digits h,
        scan_number-digits (base_of l.prefix) (is_minus l.sign) l.digits (base_small l.prefix) h,
      )
      refl

to_uint-scan :
    (m : ℕ) (s : Text)
    → to_uint m s
      ≡ uint_of (
          as_ulong m (
            scan_number
              (choose_base (skip_sign s)).0
              (with_sign (first s == b'-') (choose_base (skip_sign s)).1)))
unfolding to_uint
to_uint-scan m s = refl

pub to_uint-literal :
    (m : ℕ) (l : Literal)
    → IsLiteral l
    → to_uint m (literal_text l) ≡ uint_of (as_ulong m (scanned l))
to_uint-literal m l h =
    rw
      (
        to_uint-scan m (literal_text l),
        first-is_minus l.sign l.prefix l.digits h,
        skip_sign-text l.sign l.prefix l.digits h,
        choose_base-prefix l.prefix l.digits h,
        scan_number-digits (base_of l.prefix) (is_minus l.sign) l.digits (base_small l.prefix) h,
      )
      refl

-- From -2 ^ 31 to 2 ^ 32 - 1.
abbrev pub is_in_range : Signed → Bool
is_in_range n = leb n.magnitude (if n.negative then 2 ^ 31 else 2 ^ 32 - 1)

-- The 32-bit pattern of the number.
abbrev pub pattern_of : Signed → ℕ
pattern_of n = if n.negative then (2 ^ 32 - n.magnitude) % 2 ^ 32 else n.magnitude

pub int_out :
    (m : ℕ) (n : Signed) → 2 ^ 31 - 1 ≤ m → (int_of (as_long m n)).out_of_range ≡ exceeds_int n
unfolding int_of as_long
int_out m n h = ground arith

pub int_in :
    (m : ℕ) (n : Signed)
    → 2 ^ 31 - 1 ≤ m
    → exceeds_int n ≡ false
    → (int_of (as_long m n)).value ≡ int_pattern n
unfolding int_of as_long
int_in m n h e = ground arith

pub uint_out :
    (m : ℕ) (n : Signed)
    → 2 ^ 31 - 1 ≤ m
    → n.negative ≡ false
    → (uint_of (as_ulong m n)).out_of_range ≡ ltb (2 ^ 32 - 1) n.magnitude
unfolding uint_of as_ulong
uint_out m n h e = ground arith

pub uint_in :
    (m : ℕ) (n : Signed)
    → 2 ^ 31 - 1 ≤ m
    → n.negative ≡ false
    → ltb (2 ^ 32 - 1) n.magnitude ≡ false
    → (uint_of (as_ulong m n)).value ≡ n.magnitude
unfolding uint_of as_ulong
uint_in m n h q e = ground arith
