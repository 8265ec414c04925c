-- ===== src/Mangler.antt =====
-- `Mangler` of compiler/mangler.cc. A string is the list of its bytes; what `<cctype>` says of a byte
-- is what it says in the "C" locale. A function that appends to a string gives the longer string.
pub mod Entities
pub mod Spell
pub mod Bounds
pub mod Identifier
pub mod Scan
pub mod Reading
pub mod Steps
pub mod RoundTrip
pub mod Total
mod Tests
use vnpforth.Prelude.{
  ℕ, zero, suc, ◌-◌, ◌+◌, ◌*◌, ◌/◌, ◌%◌, Bool, true, false, not, ◌&&◌, ◌||◌, List, [], ◌∷◌, ◌++◌,
  map, Option, none, some, ◌>>=◌, ◌==◌, ltb, leb, length, Text, codes, text_eq, if◌then◌else◌,
}
use vnpforth.Mangler.Entities.{EntityTable, entities}

abbrev pub high_water_mark : ℕ
high_water_mark = 4096 - 32

abbrev pub is_digit : ℕ → Bool
is_digit c = leb b'0' c && leb c b'9'

abbrev pub is_upper : ℕ → Bool
is_upper c = leb b'A' c && leb c b'Z'

abbrev pub is_lower : ℕ → Bool
is_lower c = leb b'a' c && leb c b'z'

abbrev pub is_alpha : ℕ → Bool
is_alpha c = is_upper c || is_lower c

unfoldable pub lower : ℕ → ℕ
lower c = if is_upper c then c + 32 else c

abbrev pub to_lower : Text → Text
to_lower str = map lower str

abbrev pub is_empty : Text → Bool
is_empty [] = true
is_empty (c ∷ s) = false

abbrev pub is_simple : ℕ → Bool
is_simple c = c == b'_' || is_digit c || is_alpha c

-- `transform_simple` where it returns true.
abbrev pub transform_simple : ℕ → Text → Text
transform_simple c mangled =
    (mangled ++ (if is_empty mangled && is_digit c then codes "z" else [])) ++ (c ∷ [])

unfoldable pub find_entity : ℕ → EntityTable → Option Text
find_entity c [] = none
find_entity c ((key, name) ∷ rest) = if key == c then some name else find_entity c rest

-- A digit of `std::hex` with `std::uppercase`.
unfoldable pub hex_digit : ℕ → ℕ
hex_digit k = if ltb k 10 then b'0' + k else b'A' + (k - 10)

abbrev pub transform_hex : ℕ → Text → Text
transform_hex c mangled = mangled ++ (b'x' ∷ hex_digit (c / 16 % 16) ∷ hex_digit (c % 16) ∷ [])

abbrev pub transform_other : ℕ → Text → Text
transform_other c mangled = elim (find_entity c entities) [
  | some name ↦ mangled ++ name
  | none ↦ transform_hex c mangled
]

unfoldable pub transform : ℕ → Text → Text
unfolding hex_digit find_entity entities
transform c mangled =
    if ltb high_water_mark (length mangled)
    then mangled
    else if is_simple c
    then transform_simple c mangled
    else transform_other c (mangled ++ (if is_empty mangled then [] else codes "_"))

-- `std::for_each`
unfoldable pub transform_all : Text → Text → Text
unfolding transform
transform_all [] mangled = mangled
transform_all (c ∷ s) mangled = transform_all s (transform c mangled)

abbrev pub is_reserved : Text → Bool
is_reserved s = text_eq s (codes "_start") || text_eq s (codes "main")

-- The string behind a prefix that it has.
unfoldable pub strip_prefix : Text → Text → Option Text
strip_prefix [] s = some s
strip_prefix (a ∷ p) [] = none
strip_prefix (a ∷ p) (b ∷ s) = if a == b then strip_prefix p s else none

unfoldable pub mangle : Text → Text
unfolding transform_all lower strip_prefix
mangle s =
    if is_reserved s
    then s
    else if text_eq s (codes "__")
    then []
    else elim (strip_prefix (codes "__") s) [
      | some m ↦ transform_all m []
      | none ↦ codes "v4_" ++ transform_all (to_lower s) []
    ]

abbrev pub hex : Text
hex = codes "0123456789ABCDEF"

-- `std::string::find` of a byte; `none` is `npos`.
unfoldable pub position : ℕ → Text → Option ℕ
position c [] = none
position c (h ∷ rest) =
    let later = position c rest in
    if h == c then some 0 else elim later [ some i ↦ some (suc i) | none ↦ none ]

-- `*s` and `*demangled` after a demangler that returns true.
abbrev pub Demangled : Type 0
Demangled = Text × Text

abbrev pub append_hex : Option ℕ → Option ℕ → Text → Text → Option Demangled
append_hex (some high) (some low) s demangled = some (s, demangled ++ ((high * 16 + low) ∷ []))
append_hex _ _ s demangled = none

unfoldable pub hex_behind : Text → Text → Option Demangled
unfolding position
hex_behind (a ∷ b ∷ s) demangled = append_hex (position a hex) (position b hex) s demangled
hex_behind _ demangled = none

unfoldable pub untransform_hex : Text → Text → Option Demangled
unfolding hex_behind strip_prefix
untransform_hex s demangled = elim (strip_prefix (codes "_x") s) [
  | some rest ↦ hex_behind rest demangled
  | none ↦ none
]

-- The loop of `untransform_entity`, over the entities that are left.
unfoldable pub untransform_entity : EntityTable → Text → Text → Option Demangled
unfolding strip_prefix
untransform_entity [] s demangled = none
untransform_entity ((key, name) ∷ rest) s demangled =
    let later = untransform_entity rest s demangled in
    elim (strip_prefix (b'_' ∷ name) s) [
      | some s' ↦ some (s', demangled ++ (key ∷ []))
      | none ↦ later
    ]

abbrev pub is_z_digit : Text → Bool
is_z_digit (a ∷ b ∷ s) = a == b'z' && is_digit b
is_z_digit _ = false

abbrev pub drop_first : Text → Text
drop_first [] = []
drop_first (c ∷ s) = s

-- `s->at (0)` of an empty string throws; `demangle` never asks for it.
unfoldable pub untransform_simple : Text → Text → Option Demangled
untransform_simple s demangled =
    elim (if is_empty demangled && is_z_digit s then drop_first s else s) [
      | c ∷ rest ↦ some (rest, demangled ++ (c ∷ []))
      | [] ↦ none
    ]

unfoldable pub untransform : Text → Text → Option Demangled
unfolding untransform_hex untransform_entity untransform_simple entities
untransform s demangled =
    let ss = (if is_empty demangled then codes "_" else []) ++ s in
    elim (untransform_hex ss demangled) [
      | some d ↦ some d
      | none ↦ elim (untransform_entity entities ss demangled) [
        | some d ↦ some d
        | none ↦ untransform_simple s demangled
      ]
    ]

-- `while (!ss.empty ())`, on fuel; `none` is no fuel left, or the exception of `at`.
unfoldable pub untransform_all : ℕ → Text → Text → Option Text
unfolding untransform
untransform_all fuel [] demangled = some demangled
untransform_all zero (c ∷ s) demangled = none
untransform_all (suc fuel) (c ∷ s) demangled =
    untransform (c ∷ s) demangled >>= λ d. untransform_all fuel d.0 d.1

unfoldable pub demangle : Text → Option Text
unfolding untransform_all strip_prefix
demangle s =
    if is_reserved s
    then some s
    else if text_eq s (codes "v4_")
    then some []
    else elim (strip_prefix (codes "v4_") s) [
      | some ss ↦ untransform_all (length ss) ss []
      | none ↦ some (codes "__" ++ s)
    ]
