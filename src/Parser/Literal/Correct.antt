-- ===== src/Parser/Literal/Correct.antt =====
-- What `f_integer_literal` of compiler/parser.cc does with a literal that the lexer passes to it.
use vnpforth.Prelude.{
  ℕ, ◌-◌, ◌^◌, ◌≤◌, Bool, true, false, ◌==◌, ltb, Text, if◌then◌else◌, ◌≡◌, ◌∙◌, sym, ap, ◌||◌,
  refl, arith, Bool-cases, inl, inr,
}
use vnpforth.Parser.{Parser, parse_error}
use vnpforth.Parser.Literal.{
  first, Signed, Ranged, to_int, to_uint, int_of, as_long, uint_of, as_ulong, int_pattern,
  exceeds_int, push_integer, f_integer_literal,
}
use vnpforth.Parser.Literal.Written.{Literal, literal_text, is_minus}
use vnpforth.Parser.Literal.Range.{
  IsLiteral, scanned, first-is_minus, to_int-literal, to_uint-literal, is_in_range, pattern_of,
  int_out, int_in, uint_out, uint_in,
}

-- The handler, from the results of the two conversions.
abbrev by_results : {A : Type 0} → A → (ℕ → A) → Bool → Ranged ℕ → Ranged ℕ → A
by_results bad pushed minus i u =
    if i.out_of_range
    then (if minus then bad else if u.out_of_range then bad else pushed u.value)
    else pushed i.value

f_integer_literal-results :
    (m : ℕ) (mangle : Text → Text) (s : Text) (p : Parser)
    → f_integer_literal m mangle s p
      ≡ by_results
          (parse_error p)
          (λ v. push_integer mangle v p)
          (first s == b'-')
          (to_int m s)
          (to_uint m s)
unfolding f_integer_literal
f_integer_literal-results m mangle s p = refl

fits_int :
    (n : Signed) → exceeds_int n ≡ false → (is_in_range n ≡ true) × (int_pattern n ≡ pattern_of n)
fits_int n e = elim (Bool-cases n.negative) [ inl q ↦ ground arith | inr q ↦ ground arith ]

exceeds_minus : (n : Signed) → exceeds_int n ≡ true → n.negative ≡ true → is_in_range n ≡ false
exceeds_minus n e q = ground arith

exceeds_uint :
    (n : Signed) → n.negative ≡ false → ltb (2 ^ 32 - 1) n.magnitude ≡ true → is_in_range n ≡ false
exceeds_uint n q e = ground arith

fits_uint :
    (n : Signed)
    → n.negative ≡ false
    → ltb (2 ^ 32 - 1) n.magnitude ≡ false
    → (is_in_range n ≡ true) × (pattern_of n ≡ n.magnitude)
fits_uint n q e = ground arith

module _ {A : Type 0} (bad : A) (pushed : ℕ → A) where
  by_results_bad :
      (minus : Bool) (i u : Ranged ℕ)
      → i.out_of_range ≡ true
      → (minus || u.out_of_range) ≡ true
      → by_results bad pushed minus i u ≡ bad
  by_results_bad minus i u e f = ground arith

  by_results_int :
      (minus : Bool) (i u : Ranged ℕ)
      → i.out_of_range ≡ false
      → by_results bad pushed minus i u ≡ pushed i.value
  by_results_int minus i u e = ground arith

  by_results_uint :
      (minus : Bool) (i u : Ranged ℕ)
      → i.out_of_range ≡ true
      → minus ≡ false
      → u.out_of_range ≡ false
      → by_results bad pushed minus i u ≡ pushed u.value
  by_results_uint minus i u e f g = ground arith

  abbrev by_range : Signed → A
  by_range n = if is_in_range n then pushed (pattern_of n) else bad

  by_range_good :
      (n : Signed) (v : ℕ) → is_in_range n ≡ true → v ≡ pattern_of n → pushed v ≡ by_range n
  by_range_good n v e f = rw (by_range, e, f) refl

  by_range_bad : (n : Signed) → is_in_range n ≡ false → bad ≡ by_range n
  by_range_bad n e = rw (by_range, e) refl

  by_results-range :
      (m : ℕ) (n : Signed)
      → 2 ^ 31 - 1 ≤ m
      → by_results bad pushed n.negative (int_of (as_long m n)) (uint_of (as_ulong m n))
        ≡ by_range n
  by_results-range m n h =
      let i = int_of (as_long m n) in
      let u = uint_of (as_ulong m n) in
      elim (Bool-cases (exceeds_int n)) [
        | inr e ↦
            let (r, v) = fits_int n e in
            by_results_int n.negative i u (int_out m n h ∙ e)
            ∙ by_range_good n i.value r (int_in m n h e ∙ v)
        | inl e ↦ elim (Bool-cases n.negative) [
          | inl q ↦
              by_results_bad n.negative i u (int_out m n h ∙ e) (ground arith)
              ∙ by_range_bad n (exceeds_minus n e q)
          | inr q ↦ elim (Bool-cases (ltb (2 ^ 32 - 1) n.magnitude)) [
            | inl f ↦
                let out = uint_out m n h q ∙ f in
                by_results_bad n.negative i u (int_out m n h ∙ e) (ground arith)
                ∙ by_range_bad n (exceeds_uint n q f)
            | inr f ↦
                let (r, v) = fits_uint n q f in
                by_results_uint n.negative i u (int_out m n h ∙ e) q (uint_out m n h q ∙ f)
                ∙ by_range_good n u.value r (uint_in m n h q f ∙ sym v)
          ]
        ]
      ]

-- An integer literal as the lexer passes it, with a sign, a prefix and digits of its base, pushes
-- the 32-bit pattern of the number it is written for where that lies from -2 ^ 31 to 2 ^ 32 - 1,
-- and elsewhere is one error and emits nothing, whatever the width of long from that of int on.
pub f_integer_literal-literal :
    (m : ℕ) (mangle : Text → Text) (l : Literal) (p : Parser)
    → 2 ^ 31 - 1 ≤ m
    → IsLiteral l
    → f_integer_literal m mangle (literal_text l) p ≡ (
        if is_in_range (scanned l)
        then push_integer mangle (pattern_of (scanned l)) p
        else parse_error p)
f_integer_literal-literal m mangle l p h w =
    f_integer_literal-results m mangle (literal_text l) p
    ∙ ap
        (λ b.
          by_results (parse_error p) (λ v. push_integer mangle v p) b (to_int m (literal_text l))
            (to_uint m (literal_text l)))
        (first-is_minus l.sign l.prefix l.digits w)
    ∙ ap
        (λ i.
          by_results (parse_error p) (λ v. push_integer mangle v p) (is_minus l.sign) i
            (to_uint m (literal_text l)))
        (to_int-literal m l w)
    ∙ ap
        (λ u.
          by_results (parse_error p) (λ v. push_integer mangle v p) (is_minus l.sign)
            (int_of (as_long m (scanned l))) u)
        (to_uint-literal m l w)
    ∙ by_results-range (parse_error p) (λ v. push_integer mangle v p) m (scanned l) h
