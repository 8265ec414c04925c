-- ===== src/Mangler/RoundTrip.antt =====
-- `mangle` and then `demangle` of compiler/mangler.cc.
use vnpforth.Prelude.{
  ℕ, zero, suc, ◌+◌, ◌*◌, ◌≤◌, Bool, true, false, not, ◌&&◌, [], ◌∷◌, ◌++◌, none, some, ◌>>=◌, ltb,
  length, length-append, Text, codes, text_eq, text_eq-path, ◌≡◌, ◌∙◌, sym, ap, refl, arith,
  append_assoc, append-nil, Option-cases, Bool-cases, inl, inr,
}
use vnpforth.Mangler.{
  high_water_mark, is_simple, is_empty, find_entity, transform, transform_all, mangle, is_reserved,
  strip_prefix, lower, to_lower, untransform, untransform_all, demangle,
}
use vnpforth.Mangler.Entities.{entities}
use vnpforth.Mangler.Spell.{name_of, piece, transform-piece, all_names, find_entity-holds}
use vnpforth.Mangler.Bounds.{length-piece}
use vnpforth.Mangler.Reading.{spell, is_lowercase, is_readable_on, is_readable, first_other}
use vnpforth.Mangler.Steps.{untransform-piece, untransform-first}

names_nonempty : all_names (λ n. not (is_empty n)) entities ≡ true
unfolding entities
names_nonempty = refl

nonempty-name_of : (c : ℕ) → is_empty (name_of c) ≡ false
nonempty-name_of c = elim (Option-cases (find_entity c entities)) [
  | inl e ↦ rw (e, name_of) refl
  | inr (n, e) ↦
      rw (e, name_of)
        (ground (arith, find_entity-holds (λ n. not (is_empty n)) c entities names_nonempty e))
]

nonempty-append : (s t : Text) → is_empty s ≡ false → is_empty (s ++ t) ≡ false
nonempty-append [] t h = absurd (cc)
nonempty-append (a ∷ s) t h = refl

append_nonempty : (s t : Text) → is_empty t ≡ false → is_empty (s ++ t) ≡ false
append_nonempty [] t h = h
append_nonempty (a ∷ s) t h = refl

nonempty-piece : (first : Bool) (c : ℕ) → is_empty (piece first c) ≡ false
nonempty-piece true c = elim (Bool-cases (is_simple c)) [
  | inl e ↦ ground arith
  | inr e ↦ rw (first_other c e) (nonempty-name_of c)
]
nonempty-piece false c = ground arith

untransform_all-step :
    (fuel : ℕ) (x d s d' : Text)
    → is_empty x ≡ false
    → untransform x d ≡ some (s, d')
    → untransform_all (suc fuel) x d ≡ untransform_all fuel s d'
unfolding untransform_all
untransform_all-step fuel [] d s d' h e = absurd (cc)
untransform_all-step fuel (a ∷ x) d s d' h e = rw (e, ◌>>=◌) refl

-- The loop behind the first byte, on a step for each byte.
untransform_all-spell :
    (fuel : ℕ) (s d : Text)
    → length s ≤ fuel
    → is_lowercase s ≡ true
    → is_readable_on s ≡ true
    → is_empty d ≡ false
    → untransform_all fuel (spell false s) d ≡ some (d ++ s)
unfolding spell untransform_all
untransform_all-spell fuel [] d l h k e = ap some (sym (append-nil d))
untransform_all-spell zero (c ∷ s) d l h k e = absurd (omega arith)
untransform_all-spell (suc fuel) (c ∷ s) d l h k e =
    untransform_all-step fuel (piece false c ++ spell false s) d (spell false s) (d ++ (c ∷ []))
      (nonempty-append (piece false c) (spell false s) (nonempty-piece false c))
      (untransform-piece c s d h k e)
    ∙ untransform_all-spell fuel s (d ++ (c ∷ [])) (omega arith) (ground arith) (ground arith)
        (append_nonempty d (c ∷ []) refl)
    ∙ ap some (append_assoc d (c ∷ []) s)

untransform_all-first :
    (fuel : ℕ) (c : ℕ) (s : Text)
    → length s ≤ fuel
    → is_lowercase (c ∷ s) ≡ true
    → is_readable (c ∷ s) ≡ true
    → untransform_all (suc fuel) (spell true (c ∷ s)) [] ≡ some (c ∷ s)
unfolding spell
untransform_all-first fuel c s l h k =
    untransform_all-step fuel (piece true c ++ spell false s) [] (spell false s) (c ∷ [])
      (nonempty-append (piece true c) (spell false s) (nonempty-piece true c))
      (untransform-first c s h k)
    ∙ untransform_all-spell fuel s (c ∷ []) l (ground arith) (ground arith) refl

length-nonempty : (s : Text) → is_empty s ≡ false → 1 ≤ length s
length-nonempty [] h = absurd (cc)
length-nonempty (a ∷ s) h = omega arith

length-spell : (first : Bool) (s : Text) → length s ≤ length (spell first s)
unfolding spell
length-spell first [] = omega arith
length-spell first (c ∷ s) =
    rw (length-append (piece first c) (spell false s)) (
      omega (arith, length-spell false s, length-nonempty (piece first c) (nonempty-piece first c)))

-- A name short enough is spelled whole.
transform_all-spell :
    (s m : Text) → length m + 13 * length s ≤ 4077 → transform_all s m ≡ m ++ spell (is_empty m) s
unfolding transform_all spell
transform_all-spell [] m h = sym (append-nil m)
transform_all-spell (c ∷ s) m h =
    let p = piece (is_empty m) c in
    let one : transform c m ≡ m ++ p = transform-piece c m (ground arith) in
    let more : is_empty (m ++ p) ≡ false = append_nonempty m p (nonempty-piece (is_empty m) c) in
    rw one (
      transform_all-spell s (m ++ p)
        (rw (length-append m p) (omega (arith, length-piece (is_empty m) c)))
      ∙ rw more (append_assoc m p (spell false s)))

demangle-v4 :
    (x : Text) → is_empty x ≡ false → demangle (codes "v4_" ++ x) ≡ untransform_all (length x) x []
unfolding demangle
demangle-v4 [] h = absurd (cc)
demangle-v4 (a ∷ x) h = refl

demangle_v4 : demangle (codes "v4_") ≡ some []
unfolding demangle
demangle_v4 = refl

suc_of : (n : ℕ) → 1 ≤ n → (k : ℕ) × (n ≡ suc k)
suc_of zero h = absurd (omega arith)
suc_of (suc k) h = (k, refl)

demangle-spell :
    (s : Text)
    → is_lowercase s ≡ true
    → is_readable s ≡ true
    → demangle (codes "v4_" ++ spell true s) ≡ some s
unfolding spell
demangle-spell [] h k = demangle_v4
demangle-spell (c ∷ s) h k =
    let x = spell true (c ∷ s) in
    let (fuel, e) = suc_of (length x) (omega (arith, length-spell true (c ∷ s))) in
    demangle-v4 x (nonempty-append (piece true c) (spell false s) (nonempty-piece true c))
    ∙ ap (λ n. untransform_all n x []) e
    ∙ untransform_all-first fuel c s (omega (arith, length-spell true (c ∷ s))) h k

abbrev pub all_bytes : Text → Bool
all_bytes [] = true
all_bytes (c ∷ s) = ltb c 256 && all_bytes s

is_lowercase-to_lower : (s : Text) → all_bytes s ≡ true → is_lowercase (to_lower s) ≡ true
unfolding lower
is_lowercase-to_lower [] h = refl
is_lowercase-to_lower (c ∷ s) h = ground (arith, is_lowercase-to_lower s)

length-to_lower : (s : Text) → length (to_lower s) ≡ length s
length-to_lower [] = refl
length-to_lower (c ∷ s) = omega (arith, length-to_lower s)

mangle-plain :
    (s : Text)
    → is_reserved s ≡ false
    → strip_prefix (codes "__") s ≡ none
    → mangle s ≡ codes "v4_" ++ transform_all (to_lower s) []
unfolding mangle strip_prefix
mangle-plain s e a = elim (Bool-cases (text_eq s (codes "__"))) [
  | inl q ↦ absurd (cc (rw (text_eq-path s (codes "__") q) at a))
  | inr q ↦ rw (mangle, e, q, a) refl
]

demangle-reserved : (s : Text) → is_reserved s ≡ true → demangle (mangle s) ≡ some (to_lower s)
unfolding demangle mangle lower
demangle-reserved s h = elim (Bool-cases (text_eq s (codes "_start"))) [
  | inl e ↦ rw (text_eq-path s (codes "_start") e) refl
  | inr e ↦ rw (text_eq-path s (codes "main") (ground arith)) refl
]

-- A name that is spelled whole, with the prefix, and read back: bytes that do not begin with two
-- underscores, no part of which reads as the spelling of something else, and not too many of them.
pub record IsPlain (s : Text) : Type 0 where
  pub bytes : all_bytes s ≡ true
  pub unrestricted : strip_prefix (codes "__") s ≡ none
  pub readable : is_readable (to_lower s) ≡ true
  pub short : 13 * length s ≤ high_water_mark

-- Demangling the mangled name gives the name in lowercase, where the name is made of bytes, does
-- not begin with two underscores, has no part that reads as the spelling of something else, and
-- has no more bytes than fit below the high water mark at thirteen for each.
pub demangle-mangle : (s : Text) → IsPlain s → demangle (mangle s) ≡ some (to_lower s)
demangle-mangle s p = elim (Bool-cases (is_reserved s)) [
  | inl e ↦ demangle-reserved s e
  | inr e ↦
      rw
        (
          mangle-plain s e p.unrestricted,
          transform_all-spell (to_lower s) [] (omega (arith, length-to_lower s, p.short)),
        )
        (demangle-spell (to_lower s) (is_lowercase-to_lower s p.bytes) p.readable)
]

-- Two names with the same mangled name are the same name but for capitals, where each is made of
-- bytes, does not begin with two underscores, has no part that reads as the spelling of something
-- else, and has no more bytes than fit below the high water mark at thirteen for each.
pub mangle_injective :
    (s t : Text) → IsPlain s → IsPlain t → mangle s ≡ mangle t → to_lower s ≡ to_lower t
mangle_injective s t p q e =
    let same : some (to_lower s) ≡ some (to_lower t) =
      sym (demangle-mangle s p) ∙ ap demangle e ∙ demangle-mangle t q in
    cc
