-- ===== src/Mangler/Identifier.antt =====
-- What bytes the names of compiler/mangler.cc are made of.
use vnpforth.Prelude.{
  ℕ, ◌/◌, ◌%◌, ◌<◌, Bool, true, false, not, ◌&&◌, [], ◌∷◌, ◌++◌, ltb, length, Text, codes, text_eq,
  text_eq-path, ◌≡◌, refl, arith, Option-cases, Bool-cases, inl, inr,
}
use vnpforth.Mangler.{
  high_water_mark, is_digit, is_simple, is_empty, find_entity, hex_digit, transform, transform_all,
  mangle, is_reserved, strip_prefix, to_lower,
}
use vnpforth.Mangler.Entities.{entities}
use vnpforth.Mangler.Spell.{
  name_of, piece, transform-piece, transform_past, all_names, find_entity-holds,
}

abbrev pub all_simple : Text → Bool
all_simple [] = true
all_simple (c ∷ s) = is_simple c && all_simple s

-- Letters, digits and underscores, with no digit in front.
abbrev pub is_identifier : Text → Bool
is_identifier [] = true
is_identifier (c ∷ s) = not (is_digit c) && is_simple c && all_simple s

names_identifier : all_names is_identifier entities ≡ true
unfolding entities
names_identifier = refl

is_simple-hex_digit : (k : ℕ) → k < 16 → is_simple (hex_digit k) ≡ true
unfolding hex_digit
is_simple-hex_digit k h = ground arith

is_identifier-name_of : (c : ℕ) → is_identifier (name_of c) ≡ true
is_identifier-name_of c = elim (Option-cases (find_entity c entities)) [
  | inl e ↦
      rw (e, name_of)
        (ground (
          arith,
          is_simple-hex_digit (c / 16 % 16) (omega arith),
          is_simple-hex_digit (c % 16) (omega arith),
        ))
  | inr (n, e) ↦ rw (e, name_of) (find_entity-holds is_identifier c entities names_identifier e)
]

all_simple-identifier : (s : Text) → is_identifier s ≡ true → all_simple s ≡ true
all_simple-identifier [] h = refl
all_simple-identifier (c ∷ s) h = ground arith

all_simple-append :
    (s t : Text) → all_simple s ≡ true → all_simple t ≡ true → all_simple (s ++ t) ≡ true
all_simple-append [] t h k = k
all_simple-append (c ∷ s) t h k = ground (arith, all_simple-append s t)

is_identifier-append :
    (s t : Text)
    → is_identifier s ≡ true
    → all_simple t ≡ true
    → is_empty s ≡ false
    → is_identifier (s ++ t) ≡ true
is_identifier-append [] t h k e = absurd (cc)
is_identifier-append (c ∷ s) t h k e = ground (arith, all_simple-append s t)

is_identifier-first : (c : ℕ) → is_identifier (piece true c) ≡ true
is_identifier-first c = ground (arith, is_identifier-name_of c)

all_simple-piece : (c : ℕ) → all_simple (piece false c) ≡ true
all_simple-piece c = ground (arith, all_simple-identifier (name_of c) (is_identifier-name_of c))

is_identifier-more :
    (m : Text) (c : ℕ) → is_identifier m ≡ true → is_identifier (m ++ piece (is_empty m) c) ≡ true
is_identifier-more [] c h = is_identifier-first c
is_identifier-more (a ∷ m) c h =
    is_identifier-append (a ∷ m) (piece false c) h (all_simple-piece c) refl

is_identifier-transform :
    (c : ℕ) (m : Text) → is_identifier m ≡ true → is_identifier (transform c m) ≡ true
is_identifier-transform c m h = elim (Bool-cases (ltb high_water_mark (length m))) [
  | inl e ↦ rw (transform_past c m e) h
  | inr e ↦ rw (transform-piece c m e) (is_identifier-more m c h)
]

is_identifier-transform_all :
    (s m : Text) → is_identifier m ≡ true → is_identifier (transform_all s m) ≡ true
unfolding transform_all
is_identifier-transform_all [] m h = h
is_identifier-transform_all (c ∷ s) m h =
    is_identifier-transform_all s (transform c m) (is_identifier-transform c m h)

is_identifier-reserved : (s : Text) → is_reserved s ≡ true → is_identifier s ≡ true
is_identifier-reserved s h = elim (Bool-cases (text_eq s (codes "_start"))) [
  | inl e ↦ rw (text_eq-path s (codes "_start") e) refl
  | inr e ↦ rw (text_eq-path s (codes "main") (ground arith)) refl
]

-- A mangled name is letters, digits and underscores, and no digit stands in front.
pub mangle-IsIdentifier : (s : Text) → is_identifier (mangle s) ≡ true
unfolding mangle
mangle-IsIdentifier s = elim (Bool-cases (is_reserved s)) [
  | inl e ↦ rw (mangle, e) (is_identifier-reserved s e)
  | inr e ↦ elim (Bool-cases (text_eq s (codes "__"))) [
    | inl q ↦ rw (mangle, e, q) refl
    | inr q ↦ elim (Option-cases (strip_prefix (codes "__") s)) [
      | inl a ↦
          rw (mangle, e, q, a)
            (all_simple-identifier (transform_all (to_lower s) [])
              (is_identifier-transform_all (to_lower s) [] refl))
      | inr (m, a) ↦ rw (mangle, e, q, a) (is_identifier-transform_all m [] refl)
    ]
  ]
]
