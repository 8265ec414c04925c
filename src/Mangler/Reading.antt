-- ===== src/Mangler/Reading.antt =====
-- What `untransform` of compiler/mangler.cc reads where a text is spelled.
use vnpforth.Prelude.{
  ℕ, ◌<◌, Bool, true, false, not, ◌&&◌, [], ◌∷◌, ◌++◌, none, some, ◌==◌, ltb, Text, codes,
  if◌then◌else◌, ◌≡◌, ◌∙◌, refl, arith, Option-cases, Bool-cases, inl, inr, ==_iff,
}
use vnpforth.Mangler.{
  is_digit, is_upper, is_simple, is_empty, is_z_digit, find_entity, Demangled, hex_behind,
  untransform_hex, untransform_entity, untransform_simple, untransform,
}
use vnpforth.Mangler.Entities.{entities}
use vnpforth.Mangler.Spell.{name_of, piece, find_entity-holds}
use vnpforth.Mangler.Scan.{
  begins_upper, names_upper, untransform_entity-name, position-none, untransform_hex-digits,
  untransform_hex-behind, untransform_hex-none, untransform_hex_end, hex_behind_nil, hex_behind_one,
  hex_behind-first, hex_behind-second,
}

-- What the bytes of a text are spelled as, one behind another.
unfoldable pub spell : Bool → Text → Text
spell first [] = []
spell first (c ∷ s) = piece first c ++ spell false s

pub spell_cons :
    (first : Bool) (c : ℕ) (s : Text) → spell first (c ∷ s) ≡ piece first c ++ spell false s
unfolding spell
spell_cons first c s = refl

-- Bytes with no capital among them.
abbrev pub is_lowercase : Text → Bool
is_lowercase [] = true
is_lowercase (c ∷ s) = ltb c 256 && not (is_upper c) && is_lowercase s

-- Text that reads as the spelling of one byte behind an underscore.
abbrev pub looks_hex : Text → Bool
looks_hex (a ∷ b ∷ c ∷ s) = a == b'x' && is_digit b && is_digit c
looks_hex _ = false

abbrev pub is_readable_on : Text → Bool
is_readable_on [] = true
is_readable_on (c ∷ s) = not (c == b'_' && looks_hex s) && is_readable_on s

abbrev pub is_readable_tail : Text → Bool
is_readable_tail [] = true
is_readable_tail (c ∷ s) = is_readable_on s

-- No part of the text reads as the spelling of something else.
abbrev pub is_readable : Text → Bool
is_readable s = not (looks_hex s) && not (is_z_digit s) && is_readable_tail s

abbrev two_digits : Text → Bool
two_digits (a ∷ b ∷ s) = is_digit a && is_digit b
two_digits _ = false

pub piece_simple : (c : ℕ) → is_simple c ≡ true → piece false c ≡ c ∷ []
piece_simple c h = ground arith

pub piece_other : (c : ℕ) → is_simple c ≡ false → piece false c ≡ b'_' ∷ name_of c
piece_other c h = ground arith

pub first_digit : (c : ℕ) → is_simple c ≡ true → is_digit c ≡ true → piece true c ≡ b'z' ∷ c ∷ []
first_digit c h k = ground arith

pub first_simple : (c : ℕ) → is_simple c ≡ true → is_digit c ≡ false → piece true c ≡ c ∷ []
first_simple c h k = ground arith

pub first_other : (c : ℕ) → is_simple c ≡ false → piece true c ≡ name_of c
first_other c h = ground arith

pub begins_upper-spell : (s : Text) → is_lowercase s ≡ true → begins_upper (spell false s) ≡ false
unfolding spell
begins_upper-spell [] h = refl
begins_upper-spell (c ∷ s) h = elim (Bool-cases (is_simple c)) [
  | inl e ↦ rw (piece_simple c e) (ground arith)
  | inr e ↦ rw (piece_other c e) refl
]

-- The second byte of what follows `_x`.
hex_behind-digit :
    (a : ℕ) (s d : Text)
    → is_lowercase s ≡ true
    → two_digits (b'0' ∷ s) ≡ false
    → hex_behind (a ∷ spell false s) d ≡ none
unfolding spell
hex_behind-digit a [] d h k = hex_behind_one a d
hex_behind-digit a (b ∷ s) d h k = elim (Bool-cases (is_simple b)) [
  | inl e ↦
      rw (piece_simple b e)
        (hex_behind-second a b (spell false s) d (position-none b (ground arith) (ground arith)))
  | inr e ↦
      rw (piece_other b e)
        (hex_behind-second a b'_' (name_of b ++ spell false s) d (position-none b'_' refl refl))
]

hex_behind-spell :
    (s d : Text)
    → is_lowercase s ≡ true
    → two_digits s ≡ false
    → hex_behind (spell false s) d ≡ none
unfolding spell
hex_behind-spell [] d h k = hex_behind_nil d
hex_behind-spell (a ∷ s) d h k = elim (Bool-cases (is_simple a)) [
  | inl e ↦ rw (piece_simple a e) (elim (Bool-cases (is_digit a)) [
    | inl q ↦ hex_behind-digit a s d (ground arith) (ground arith)
    | inr q ↦ hex_behind-first a (spell false s) d (position-none a q (ground arith))
  ])
  | inr e ↦
      rw (piece_other a e)
        (hex_behind-first b'_' (name_of a ++ spell false s) d (position-none b'_' refl refl))
]

-- Behind an underscore a text that does not look like a byte's digits is not read as one.
pub untransform_hex-spell :
    (s d : Text)
    → is_lowercase s ≡ true
    → looks_hex s ≡ false
    → untransform_hex (b'_' ∷ spell false s) d ≡ none
unfolding spell
untransform_hex-spell [] d h k = untransform_hex_end d
untransform_hex-spell (a ∷ s) d h k = elim (Bool-cases (is_simple a)) [
  | inl e ↦ rw (piece_simple a e) (elim (Bool-cases (a == b'x')) [
    | inl q ↦
        let x : a ≡ b'x' = (==_iff a b'x').0 q in
        rw x (
          untransform_hex-behind (spell false s) d
          ∙ hex_behind-spell s d (ground arith) (ground arith))
    | inr q ↦ untransform_hex-none a (spell false s) d q
  ])
  | inr e ↦ rw (piece_other a e) (untransform_hex-none b'_' (name_of a ++ spell false s) d refl)
]

-- What `untransform` looks for `_x` and entities in.
abbrev pub seen : Text → Text → Text
seen s d = (if is_empty d then codes "_" else []) ++ s

untransform-hex :
    (s d : Text) {r : Demangled} → untransform_hex (seen s d) d ≡ some r → untransform s d ≡ some r
unfolding untransform
untransform-hex s d e = rw (untransform, e) refl

untransform-entity :
    (s d : Text) {r : Demangled}
    → untransform_hex (seen s d) d ≡ none
    → untransform_entity entities (seen s d) d ≡ some r
    → untransform s d ≡ some r
unfolding untransform
untransform-entity s d e f = rw (untransform, e, f) refl

pub untransform-simple :
    (s d : Text)
    → untransform_hex (seen s d) d ≡ none
    → untransform_entity entities (seen s d) d ≡ none
    → untransform s d ≡ untransform_simple s d
unfolding untransform
untransform-simple s d e f = rw (untransform, e, f) refl

untransform_hex-upper :
    (n rest d : Text) → begins_upper n ≡ true → untransform_hex (b'_' ∷ (n ++ rest)) d ≡ none
untransform_hex-upper [] rest d h = absurd (cc)
untransform_hex-upper (a ∷ n) rest d h = untransform_hex-none a (n ++ rest) d (ground arith)

-- The spelling of a byte that does not stand for itself is read as the byte.
pub untransform-other :
    (c : ℕ) (s rest d : Text)
    → c < 256
    → seen s d ≡ b'_' ∷ (name_of c ++ rest)
    → untransform s d ≡ some (rest, d ++ (c ∷ []))
untransform-other c s rest d h e = elim (Option-cases (find_entity c entities)) [
  | inl f ↦ untransform-hex s d (rw (e, name_of, f) (untransform_hex-digits c rest d h))
  | inr (n, f) ↦
      untransform-entity s d
        (rw (e, name_of, f)
          (untransform_hex-upper n rest d
            (find_entity-holds begins_upper c entities names_upper f)))
        (rw (e, name_of, f) (untransform_entity-name c rest d f))
]
