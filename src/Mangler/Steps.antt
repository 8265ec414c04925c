-- ===== src/Mangler/Steps.antt =====
-- A step of the loop of `demangle` of compiler/mangler.cc where a text is spelled.
use vnpforth.Prelude.{
  ℕ, true, false, [], ◌∷◌, ◌++◌, none, some, ◌==◌, Text, ◌≡◌, ◌∙◌, sym, ap, refl, arith, Bool-cases,
  inl, inr, ==_iff,
}
use vnpforth.Mangler.{
  is_digit, is_simple, is_empty, is_z_digit, untransform_hex, untransform_simple, untransform,
}
use vnpforth.Mangler.Spell.{name_of, piece}
use vnpforth.Mangler.Scan.{
  untransform_entity-none, untransform_entity-other, untransform_hex-other, untransform_hex-none,
}
use vnpforth.Mangler.Reading.{
  spell, is_lowercase, looks_hex, is_readable_on, is_readable, piece_simple, piece_other,
  first_digit, first_simple, first_other, begins_upper-spell, untransform_hex-spell, seen,
  untransform-simple, untransform-other, spell_cons,
}

seen_on : (s d : Text) → is_empty d ≡ false → seen s d ≡ s
seen_on s d h = rw h refl

untransform_simple_on :
    (c : ℕ) (s d : Text)
    → is_empty d ≡ false
    → untransform_simple (c ∷ s) d ≡ some (s, d ++ (c ∷ []))
unfolding untransform_simple
untransform_simple_on c s d h = rw (untransform_simple, h) refl

-- One step of the loop of `demangle` behind the first byte.
pub untransform-piece :
    (c : ℕ) (s d : Text)
    → is_lowercase (c ∷ s) ≡ true
    → is_readable_on (c ∷ s) ≡ true
    → is_empty d ≡ false
    → untransform (piece false c ++ spell false s) d ≡ some (spell false s, d ++ (c ∷ []))
untransform-piece c s d h k e = elim (Bool-cases (is_simple c)) [
  | inl q ↦ rw (piece_simple c q) (elim (Bool-cases (c == b'_')) [
    | inl u ↦
        let is : c ≡ b'_' = (==_iff c b'_').0 u in
        rw is (
          untransform-simple (b'_' ∷ spell false s) d
            (rw (seen_on (b'_' ∷ spell false s) d e)
              (untransform_hex-spell s d (ground arith) (ground arith)))
            (rw (seen_on (b'_' ∷ spell false s) d e)
              (untransform_entity-none (spell false s) d (begins_upper-spell s (ground arith))))
          ∙ untransform_simple_on b'_' (spell false s) d e)
    | inr u ↦
        untransform-simple (c ∷ spell false s) d
          (rw (seen_on (c ∷ spell false s) d e) (untransform_hex-other c (spell false s) d u))
          (rw (seen_on (c ∷ spell false s) d e) (untransform_entity-other c (spell false s) d u))
        ∙ untransform_simple_on c (spell false s) d e
  ])
  | inr q ↦ rw (piece_other c q) (
      untransform-other c (b'_' ∷ (name_of c ++ spell false s)) (spell false s) d (ground arith)
        (seen_on (b'_' ∷ (name_of c ++ spell false s)) d e))
]

is_z_digit-spell :
    (c : ℕ) (s : Text) → is_z_digit (c ∷ s) ≡ false → is_z_digit (c ∷ spell false s) ≡ false
unfolding spell
is_z_digit-spell c [] h = refl
is_z_digit-spell c (b ∷ s) h = elim (Bool-cases (is_simple b)) [
  | inl e ↦ rw (piece_simple b e) h
  | inr e ↦ rw (piece_other b e) (ground arith)
]

untransform_simple-first :
    (c : ℕ) (s : Text)
    → is_z_digit (c ∷ s) ≡ false
    → untransform_simple (c ∷ s) [] ≡ some (s, c ∷ [])
unfolding untransform_simple
untransform_simple-first c s h = rw (untransform_simple, h) refl

untransform_simple-z :
    (c : ℕ) (s : Text) → is_digit c ≡ true → untransform_simple (b'z' ∷ c ∷ s) [] ≡ some (s, c ∷ [])
unfolding untransform_simple
untransform_simple-z c s h = rw (untransform_simple, h) refl

hex-first :
    (c : ℕ) (s : Text)
    → is_simple c ≡ true
    → is_lowercase (c ∷ s) ≡ true
    → looks_hex (c ∷ s) ≡ false
    → untransform_hex (b'_' ∷ c ∷ spell false s) [] ≡ none
hex-first c s e h k =
    ap (λ p. untransform_hex (b'_' ∷ (p ++ spell false s)) []) (sym (piece_simple c e))
    ∙ ap (λ p. untransform_hex (b'_' ∷ p) []) (sym (spell_cons false c s))
    ∙ untransform_hex-spell (c ∷ s) [] h k

-- The first step.
pub untransform-first :
    (c : ℕ) (s : Text)
    → is_lowercase (c ∷ s) ≡ true
    → is_readable (c ∷ s) ≡ true
    → untransform (piece true c ++ spell false s) [] ≡ some (spell false s, c ∷ [])
untransform-first c s h k = elim (Bool-cases (is_simple c)) [
  | inl q ↦ elim (Bool-cases (is_digit c)) [
    | inl u ↦ rw (first_digit c q u) (
        untransform-simple (b'z' ∷ c ∷ spell false s) []
          (untransform_hex-none b'z' (c ∷ spell false s) [] refl)
          (untransform_entity-none (b'z' ∷ c ∷ spell false s) [] refl)
        ∙ untransform_simple-z c (spell false s) u)
    | inr u ↦ rw (first_simple c q u) (
        untransform-simple (c ∷ spell false s) [] (hex-first c s q h (ground arith))
          (untransform_entity-none (c ∷ spell false s) [] (ground arith))
        ∙ untransform_simple-first c (spell false s) (is_z_digit-spell c s (ground arith)))
  ]
  | inr q ↦
      rw (first_other c q)
        (untransform-other c (name_of c ++ spell false s) (spell false s) [] (ground arith) refl)
]
