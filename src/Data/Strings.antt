-- ===== src/Data/Strings.antt =====
-- `data_to_string` of compiler/codegen.cc and the assembler that reads the string.
use vnpforth.Prelude.{
  ℕ, ◌+◌, ◌*◌, ◌/◌, ◌%◌, ◌<◌, Bool, true, false, not, ◌&&◌, [], ◌∷◌, ◌==◌, Text, ◌≡◌, ◌∙◌, ap,
  arith, Bool-cases, inl, inr,
}
use vnpforth.Data.{is_print, data_to_string}
use vnpforth.Data.Signature.{all_bytes}

-- No quote and no backslash.
abbrev pub is_unquoted : Text → Bool
is_unquoted [] = true
is_unquoted (c ∷ s) = not (c == b'"') && not (c == b'\\') && is_unquoted s

-- The assembler's reading of a string: a printed character other than a quote and a backslash stands
-- for itself, and a backslash with three octal digits for the byte.
pub record ReadsStrings (read : Text → Text) : Type 0 where
  pub read_end : read [] ≡ []
  pub read_plain :
      (c : ℕ) (s : Text)
      → is_print c ≡ true
      → (c == b'"') ≡ false
      → (c == b'\\') ≡ false
      → read (c ∷ s) ≡ c ∷ read s
  pub read_octal :
      (i j k : ℕ) (s : Text)
      → i < 4
      → j < 8
      → k < 8
      → read (b'\\' ∷ (b'0' + i) ∷ (b'0' + j) ∷ (b'0' + k) ∷ s) ≡ (i * 64 + j * 8 + k) ∷ read s

-- An assembler that reads printed characters as themselves, but for quotes and backslashes, and
-- three octal digits behind a backslash as a byte reads the string printed for a chunk of bytes as
-- the chunk, where no quote and no backslash is in it.
pub read-data_to_string :
    (read : Text → Text)
    → ReadsStrings read
    → (chunk : Text) → all_bytes chunk ≡ true
    → is_unquoted chunk ≡ true
    → read (data_to_string chunk) ≡ chunk
unfolding data_to_string
read-data_to_string read r [] h u = r.read_end
read-data_to_string read r (c ∷ chunk) h u =
    let rest = read-data_to_string read r chunk (ground arith) (ground arith) in
    elim (Bool-cases (is_print c)) [
      | inl e ↦
          rw (data_to_string, e)
            (r.read_plain c (data_to_string chunk) e (ground arith) (ground arith)
              ∙ ap (λ s. c ∷ s) rest)
      | inr e ↦
          let byte : c < 256 = ground arith in
          let small : c / 64 % 8 < 4 = omega arith in
          let sum : c / 64 % 8 * 64 + c / 8 % 8 * 8 + c % 8 ≡ c = omega arith in
          rw (data_to_string, e)
            (r.read_octal (c / 64 % 8) (c / 8 % 8) (c % 8) (data_to_string chunk) small
                (omega arith) (omega arith)
              ∙ ap (λ b. b ∷ read (data_to_string chunk)) sum
              ∙ ap (λ s. c ∷ s) rest)
    ]
