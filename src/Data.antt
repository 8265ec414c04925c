-- ===== src/Data.antt =====
-- compiler/data.h, data.cc and dattable.cc, and the read-only data of compiler/codegen.cc. A pointer
-- to a datum is its id, which `Data::count` makes unique.
pub mod Signature
pub mod Segments
pub mod Behind
pub mod Strings
mod Tests
use vnpforth.Prelude.{
  ℕ, ◌+◌, ◌-◌, ◌/◌, ◌%◌, Bool, true, false, ◌&&◌, List, [], ◌∷◌, ◌++◌, Option, none, some, ltb, leb,
  ◌==◌, length, Text, codes, text_eq, if◌then◌else◌,
}

-- The concrete classes, with the type that each passes to `Data`.
pub data DataType : Type 0 where
  counted_string plain_string : DataType

abbrev pub type_text : DataType → Text
type_text counted_string = codes "cstring"
type_text plain_string = codes "string"

pub record Data : Type 0 where
  pub id : ℕ
  pub chunk : Text
  pub line : ℕ
  pub type : DataType
  pub synonym_of : Option ℕ

-- A digit of `std::hex`.
unfoldable pub hex_digit : ℕ → ℕ
hex_digit k = if ltb k 10 then b'0' + k else b'a' + (k - 10)

-- `std::setw (2)`, which fills with a space.
unfoldable pub hex_byte : ℕ → Text
unfolding hex_digit
hex_byte b = (if ltb b 16 then b' ' else hex_digit (b / 16)) ∷ hex_digit (b % 16) ∷ []

unfoldable pub hex_bytes : Text → Text
unfolding hex_byte
hex_bytes [] = []
hex_bytes (b ∷ chunk) = hex_byte b ++ hex_bytes chunk

unfoldable pub get_signature : DataType → Text → Text
unfolding hex_bytes
get_signature type chunk = type_text type ++ hex_bytes chunk

-- A `std::map` from `std::string`: its entries in ascending order of the keys.
abbrev pub text_ltb : Text → Text → Bool
text_ltb [] [] = false
text_ltb [] (b ∷ t) = true
text_ltb (a ∷ s) [] = false
text_ltb (a ∷ s) (b ∷ t) = if a == b then text_ltb s t else ltb a b

abbrev pub Segments : Type 0
Segments = List (Text × List Data)

-- `iter->second[0]->get_id ()`
abbrev pub id_of_first : List Data → Option ℕ
id_of_first [] = none
id_of_first (d ∷ ds) = some d.id

abbrev pub set_synonym_of : Option ℕ → Data → Data
set_synonym_of none d = d
set_synonym_of (some i) d = record d { synonym_of = some i }

-- `DataTable::add`: behind the data of its signature.
unfoldable pub add_segment : Text → Data → Segments → Segments
add_segment signature d [] = (signature, d ∷ []) ∷ []
add_segment signature d ((key, ds) ∷ rest) =
    if text_eq key signature
    then (key, ds ++ (set_synonym_of (id_of_first ds) d ∷ [])) ∷ rest
    else if text_ltb signature key
    then (signature, d ∷ []) ∷ (key, ds) ∷ rest
    else (key, ds) ∷ add_segment signature d rest

-- The table, with `Data::count`.
pub record DataTable : Type 0 where
  pub segments : Segments
  pub count : ℕ

abbrev pub no_data : DataTable
no_data = record { segments = []; count = 0 }

-- The constructor of `Data`, which adds the datum to the table.
unfoldable pub new_data : DataType → Text → ℕ → DataTable → DataTable
unfolding add_segment get_signature
new_data type chunk line t = record {
  segments =
      add_segment (get_signature type chunk)
        (record { id = t.count; chunk = chunk; line = line; type = type; synonym_of = none })
        t.segments;
  count = t.count + 1;
}

-- The assembler's lines.
pub data Line : Type 0 where
  section_rodata : Line
  data_label : ℕ → Line
  string_directive : Text → Line

abbrev pub is_print : ℕ → Bool
is_print c = leb 32 c && leb c 126

-- A byte as three digits of `std::oct`, filled with zeros.
abbrev pub octal : ℕ → Text
octal c = (b'0' + c / 64 % 8) ∷ (b'0' + c / 8 % 8) ∷ (b'0' + c % 8) ∷ []

unfoldable pub data_to_string : Text → Text
data_to_string [] = []
data_to_string (c ∷ chunk) =
    (if is_print c then c ∷ [] else b'\\' ∷ octal c) ++ data_to_string chunk

-- `Data::generate` and `CountedStringData::generate`.
unfoldable pub generate_data : DataType → Text → Text
unfolding data_to_string
generate_data plain_string chunk = data_to_string chunk
generate_data counted_string chunk =
    data_to_string (length chunk % 256 ∷ []) ++ data_to_string chunk

unfoldable pub data_labels : List Data → List Line
data_labels [] = []
data_labels (d ∷ ds) = data_label d.id ∷ data_labels ds

-- The data of the first of a segment; `at (0)` of an empty one throws, and no segment is empty.
abbrev pub first_string : List Data → List Line
first_string [] = []
first_string (d ∷ ds) = string_directive (generate_data d.type d.chunk) ∷ []

unfoldable pub generate_segments : Segments → List Line
unfolding data_labels generate_data
generate_segments [] = []
generate_segments ((key, ds) ∷ rest) = data_labels ds ++ (first_string ds ++ generate_segments rest)

-- `DataTable::generate`
unfoldable pub generate : DataTable → List Line
unfolding generate_segments
generate t = elim t.segments [
  | [] ↦ []
  | segment ∷ rest ↦ section_rodata ∷ generate_segments (segment ∷ rest)
]
