-- ===== src/Data/Signature.antt =====
-- `Data::get_signature` of compiler/data.cc.
use vnpforth.Prelude.{
  ℕ, ◌+◌, ◌-◌, ◌<◌, Bool, true, ◌&&◌, [], ◌∷◌, ◌++◌, ltb, ◌*◌, ◌==◌, Text, if◌then◌else◌, ◌≡◌, ◌∙◌,
  sym, ap, refl, arith,
}
use vnpforth.Data.{DataType, counted_string, plain_string, hex_byte, hex_bytes, get_signature}

abbrev pub all_bytes : Text → Bool
all_bytes [] = true
all_bytes (b ∷ chunk) = ltb b 256 && all_bytes chunk

-- The byte of two characters.
digit_back : ℕ → ℕ
digit_back c = if c == b' ' then 0 else if ltb c b'a' then c - b'0' else c - b'a' + 10

bytes_back : Text → Text
bytes_back (a ∷ b ∷ s) = (digit_back a * 16 + digit_back b) ∷ bytes_back s
bytes_back _ = []

hex_byte-back : (b : ℕ) (s : Text) → b < 256 → bytes_back (hex_byte b ++ s) ≡ b ∷ bytes_back s
unfolding hex_byte bytes_back digit_back
hex_byte-back b s h = ground arith

hex_bytes-back : (chunk : Text) → all_bytes chunk ≡ true → bytes_back (hex_bytes chunk) ≡ chunk
unfolding hex_bytes bytes_back
hex_bytes-back [] h = refl
hex_bytes-back (b ∷ chunk) h =
    hex_byte-back b (hex_bytes chunk) (ground arith)
    ∙ ap (λ s. b ∷ s) (hex_bytes-back chunk (ground arith))

abbrev behind_type : Text → Text
behind_type (a ∷ b ∷ c ∷ d ∷ e ∷ f ∷ s) = s
behind_type _ = []

abbrev first_of_text : Text → ℕ
first_of_text [] = 0
first_of_text (c ∷ s) = c

same_bytes :
    (a b : Text) → all_bytes a ≡ true → all_bytes b ≡ true → hex_bytes a ≡ hex_bytes b → a ≡ b
same_bytes a b h k e = sym (hex_bytes-back a h) ∙ ap bytes_back e ∙ hex_bytes-back b k

abbrev behind_first : Text → Text
behind_first [] = []
behind_first (c ∷ s) = s

-- Two data with the same signature are of the same class and have the same bytes.
pub get_signature_injective :
    (t u : DataType) (a b : Text)
    → all_bytes a ≡ true
    → all_bytes b ≡ true
    → get_signature t a ≡ get_signature u b
    → (t ≡ u) × (a ≡ b)
unfolding get_signature
get_signature_injective counted_string counted_string a b h k e =
    (refl, same_bytes a b h k (ap (λ s. behind_first (behind_type s)) e))
get_signature_injective counted_string plain_string a b h k e =
    absurd (omega (arith, ap first_of_text e))
get_signature_injective plain_string counted_string a b h k e =
    absurd (omega (arith, ap first_of_text e))
get_signature_injective plain_string plain_string a b h k e =
    (refl, same_bytes a b h k (ap behind_type e))
