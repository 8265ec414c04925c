-- ===== src/Mangler/Bounds.antt =====
-- How long the names of compiler/mangler.cc are.
use vnpforth.Prelude.{
  ℕ, ◌≤◌, ◌<◌, Bool, true, false, [], ◌∷◌, ltb, leb, length, length-append, Text, codes, text_eq,
  text_eq-path, ◌≡◌, refl, arith, Option-cases, Bool-cases, inl, inr,
}
use vnpforth.Mangler.{
  high_water_mark, is_empty, find_entity, transform, transform_all, mangle, is_reserved,
  strip_prefix, to_lower,
}
use vnpforth.Mangler.Entities.{entities}
use vnpforth.Mangler.Spell.{
  name_of, piece, transform-piece, transform_past, all_names, find_entity-holds,
}

names_short : all_names (λ n. leb (length n) 12) entities ≡ true
unfolding entities
names_short = refl

length-name_of : (c : ℕ) → length (name_of c) ≤ 12
length-name_of c = elim (Option-cases (find_entity c entities)) [
  | inl e ↦ rw (e, name_of) (omega arith)
  | inr (n, e) ↦
      rw (e, name_of)
        (ground (arith, find_entity-holds (λ n. leb (length n) 12) c entities names_short e))
]

pub length-piece : (first : Bool) (c : ℕ) → length (piece first c) ≤ 13
length-piece true c = ground (arith, length-name_of c)
length-piece false c = ground (arith, length-name_of c)

length-transform : (c : ℕ) (m : Text) → length m ≤ 4077 → length (transform c m) ≤ 4077
length-transform c m h = elim (Bool-cases (ltb high_water_mark (length m))) [
  | inl e ↦ rw (transform_past c m e) h
  | inr e ↦
      rw (transform-piece c m e, length-append m (piece (is_empty m) c))
        (ground (arith, length-piece (is_empty m) c))
]

length-transform_all : (s m : Text) → length m ≤ 4077 → length (transform_all s m) ≤ 4077
unfolding transform_all
length-transform_all [] m h = h
length-transform_all (c ∷ s) m h = length-transform_all s (transform c m) (length-transform c m h)

length-reserved : (s : Text) → is_reserved s ≡ true → length s < 4096
length-reserved s h = elim (Bool-cases (text_eq s (codes "_start"))) [
  | inl e ↦ rw (text_eq-path s (codes "_start") e) (omega arith)
  | inr e ↦ rw (text_eq-path s (codes "main") (ground arith)) (omega arith)
]

-- A mangled name has fewer than 4096 bytes, however long the name is.
pub length-mangle : (s : Text) → length (mangle s) < 4096
unfolding mangle
length-mangle s = elim (Bool-cases (is_reserved s)) [
  | inl e ↦ rw e (length-reserved s e)
  | inr e ↦ elim (Bool-cases (text_eq s (codes "__"))) [
    | inl q ↦ rw (e, q) (omega arith)
    | inr q ↦ elim (Option-cases (strip_prefix (codes "__") s)) [
      | inl a ↦
          rw (mangle, e, q, a) (omega (arith, length-transform_all (to_lower s) [] (omega arith)))
      | inr (m, a) ↦ rw (mangle, e, q, a) (omega (arith, length-transform_all m [] (omega arith)))
    ]
  ]
]
