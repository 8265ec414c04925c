-- ===== src/Data/Tests.antt =====
-- Tests of literal data, and witnesses of the theorems about them.
use vnpforth.Prelude.{
  ℕ, ◌+◌, ◌-◌, ◌*◌, false, List, [], ◌∷◌, some, ◌==◌, Text, codes, if◌then◌else◌, ◌≡◌, refl, arith,
}
use vnpforth.Data.{
  plain_string, counted_string, no_data, new_data, data_to_string, generate_data, generate,
  section_rodata, data_label, string_directive,
}
use vnpforth.Data.Signature.{get_signature_injective}
use vnpforth.Data.Behind.{Piece, add_all, string_behind, string_behind-add_all}
use vnpforth.Data.Strings.{ReadsStrings, read-data_to_string}

abbrev hello : Piece
hello = record { type = plain_string; chunk = codes "hello"; line = 1 }

abbrev counted : Piece
counted = record { type = counted_string; chunk = codes "hello"; line = 2 }

abbrev pieces : List Piece
pieces = hello ∷ counted ∷ record hello { line = 3 } ∷ []

-- The third is a synonym of the first; the counted string is not.
lines :
    generate (add_all pieces no_data)
    ≡ section_rodata
      ∷ data_label 1
      ∷ string_directive (codes "\\005hello")
      ∷ data_label 0
      ∷ data_label 2
      ∷ string_directive (codes "hello")
      ∷ []
unfolding generate new_data
lines = refl

string_behind-add_all_example :
    string_behind 2 (generate (add_all pieces no_data))
    ≡ some (generate_data plain_string (codes "hello"))
string_behind-add_all_example = string_behind-add_all pieces 2 (record hello { line = 3 }) refl refl

get_signature_injective_example : (plain_string ≡ plain_string) × (codes "a b" ≡ codes "a b")
get_signature_injective_example =
    get_signature_injective plain_string plain_string (codes "a b") (codes "a b") refl refl refl

-- A reader of strings that knows octal escapes alone.
read : Text → Text
read (c ∷ i ∷ j ∷ k ∷ s) =
    let escaped = read s in
    let plain = read (i ∷ j ∷ k ∷ s) in
    if c == b'\\' then ((i - b'0') * 64 + (j - b'0') * 8 + (k - b'0')) ∷ escaped else c ∷ plain
read (c ∷ i ∷ j ∷ []) = c ∷ i ∷ j ∷ []
read (c ∷ i ∷ []) = c ∷ i ∷ []
read (c ∷ []) = c ∷ []
read [] = []

read_character : (c : ℕ) (s : Text) → (c == b'\\') ≡ false → read (c ∷ s) ≡ c ∷ read s
unfolding read
read_character c [] h = refl
read_character c (i ∷ []) h = refl
read_character c (i ∷ j ∷ []) h = refl
read_character c (i ∷ j ∷ k ∷ s) h = rw h refl

read-ReadsStrings : ReadsStrings read
unfolding read
read-ReadsStrings = record {
  read_end = refl;
  read_plain = λ c s p q h. read_character c s h;
  read_octal = λ i j k s h l m. ground arith;
}

read-data_to_string_example : read (data_to_string (codes "3 \t")) ≡ codes "3 \t"
read-data_to_string_example = read-data_to_string read read-ReadsStrings (codes "3 \t") refl refl
