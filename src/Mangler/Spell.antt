-- ===== src/Mangler/Spell.antt =====
-- What `transform` of compiler/mangler.cc appends for one byte.
use vnpforth.Prelude.{
  ℕ, ◌/◌, ◌%◌, Bool, true, false, ◌&&◌, [], ◌∷◌, ◌++◌, none, some, ◌==◌, ltb, length, Text, codes,
  if◌then◌else◌, ◌≡◌, ◌∙◌, refl, arith, append_assoc, Option-cases, Bool-cases, inl, inr,
}
use vnpforth.Mangler.{
  high_water_mark, is_digit, is_simple, is_empty, find_entity, hex_digit, transform,
  transform_other,
}
use vnpforth.Mangler.Entities.{EntityTable, entities}

abbrev pub name_of : ℕ → Text
name_of c = elim (find_entity c entities) [
  | some name ↦ name
  | none ↦ b'x' ∷ hex_digit (c / 16 % 16) ∷ hex_digit (c % 16) ∷ []
]

abbrev pub piece : Bool → ℕ → Text
piece first c =
    if is_simple c
    then (if first && is_digit c then codes "z" else []) ++ (c ∷ [])
    else (if first then [] else codes "_") ++ name_of c

transform_other-name_of : (c : ℕ) (m : Text) → transform_other c m ≡ m ++ name_of c
transform_other-name_of c m = elim (Option-cases (find_entity c entities)) [
  | inl e ↦ rw (e, transform_other, name_of) refl
  | inr (n, e) ↦ rw (e, transform_other, name_of) refl
]

-- Up to the high water mark a byte is spelled.
pub transform-piece :
    (c : ℕ) (m : Text)
    → ltb high_water_mark (length m) ≡ false
    → transform c m ≡ m ++ piece (is_empty m) c
unfolding transform
transform-piece c m h = elim (Bool-cases (is_simple c)) [
  | inl e ↦ rw (h, e) (append_assoc m _ (c ∷ []))
  | inr e ↦
      rw (h, e)
        (transform_other-name_of c (m ++ (if is_empty m then [] else codes "_"))
          ∙ append_assoc m _ (name_of c))
]

-- Past it the string is what it was.
pub transform_past : (c : ℕ) (m : Text) → ltb high_water_mark (length m) ≡ true → transform c m ≡ m
unfolding transform
transform_past c m h = rw h refl

abbrev pub all_names : (Text → Bool) → EntityTable → Bool
all_names holds [] = true
all_names holds ((key, name) ∷ rest) = holds name && all_names holds rest

-- What holds of every name of a table holds of the name that is found.
pub find_entity-holds :
    (holds : Text → Bool) (c : ℕ) (table : EntityTable) {name : Text}
    → all_names holds table ≡ true
    → find_entity c table ≡ some name
    → holds name ≡ true
unfolding find_entity
find_entity-holds holds c [] h e = absurd (cc)
find_entity-holds holds c ((k, n) ∷ t) {name} h e = elim (Bool-cases (k == c)) [
  | inl q ↦
      let same : some n ≡ some name = rw q at e in
      let same' : n ≡ name = cc in rw (← same') (ground arith)
  | inr q ↦ find_entity-holds holds c t (ground arith) (rw q at e)
]
