-- ===== src/Mangler/Total.antt =====
-- The loop of `demangle` of compiler/mangler.cc ends.
use vnpforth.Prelude.{
  ℕ, zero, suc, ◌+◌, ◌*◌, ◌≤◌, true, ◌&&◌, [], ◌∷◌, ◌++◌, Option, none, some, ◌>>=◌, leb, length,
  Text, codes, text_eq, ◌≡◌, refl, arith, Option-cases, Bool-cases, inl, inr,
}
use vnpforth.Mangler.{
  is_empty, is_z_digit, hex, position, append_hex, strip_prefix, Demangled, is_reserved, hex_behind,
  untransform_hex, untransform_entity, untransform_simple, untransform, untransform_all, demangle,
}
use vnpforth.Mangler.Entities.{EntityTable, entities}
use vnpforth.Mangler.Spell.{all_names}
use vnpforth.Mangler.Reading.{seen}

length-strip_prefix :
    (p s : Text) {r : Text} → strip_prefix p s ≡ some r → length s ≡ length p + length r
unfolding strip_prefix
length-strip_prefix [] s {r} e = let same : s ≡ r = cc in rw same (omega arith)
length-strip_prefix (a ∷ p) [] e = absurd (cc)
length-strip_prefix (a ∷ p) (b ∷ s) {r} e = ground (arith, length-strip_prefix p s {r = r})

length-append_hex :
    (i j : Option ℕ) (s d : Text) {r : Demangled}
    → append_hex i j s d ≡ some r
    → length r.0 ≡ length s
length-append_hex none j s d e = absurd (cc)
length-append_hex (some i) none s d e = absurd (cc)
length-append_hex (some i) (some j) s d {r} e =
    let same : (s, d ++ ((i * 16 + j) ∷ [])) ≡ r = cc in rw (← same) refl

length-hex_behind :
    (s d : Text) {r : Demangled} → hex_behind s d ≡ some r → suc (suc (length r.0)) ≡ length s
unfolding hex_behind
length-hex_behind [] d e = absurd (cc)
length-hex_behind (a ∷ []) d e = absurd (cc)
length-hex_behind (a ∷ b ∷ s) d e =
    omega (arith, length-append_hex (position a hex) (position b hex) s d e)

length-untransform_hex :
    (s d : Text) {r : Demangled} → untransform_hex s d ≡ some r → length r.0 + 4 ≡ length s
unfolding untransform_hex
length-untransform_hex s d {r} e = elim (Option-cases (strip_prefix (codes "_x") s)) [
  | inl h ↦ absurd (cc (rw h at e))
  | inr (x, h) ↦
      omega (arith, length-strip_prefix (codes "_x") s h, length-hex_behind x d {r = r} (rw h at e))
]

names_long : all_names (λ n. leb 1 (length n)) entities ≡ true
unfolding entities
names_long = refl

length-untransform_entity :
    (table : EntityTable) (s d : Text) {r : Demangled}
    → all_names (λ n. leb 1 (length n)) table ≡ true
    → untransform_entity table s d ≡ some r
    → length r.0 + 2 ≤ length s
unfolding untransform_entity
length-untransform_entity [] s d h e = absurd (cc)
length-untransform_entity ((k, n) ∷ t) s d {r} h e =
    elim (Option-cases (strip_prefix (b'_' ∷ n) s)) [
      | inl q ↦ length-untransform_entity t s d (ground arith) (rw (untransform_entity, q) at e)
      | inr (x, q) ↦
          let is : some (x, d ++ (k ∷ [])) ≡ some r = rw (untransform_entity, q) at e in
          let same : (x, d ++ (k ∷ [])) ≡ r = cc in
          let long : 1 ≤ length n = ground arith in
          rw (← same) (omega (arith, length-strip_prefix (b'_' ∷ n) s q))
    ]

-- What `untransform_simple` leaves of a string that is not empty.
untransform_simple_total :
    (c : ℕ) (s d : Text)
    → (r : Demangled) × (untransform_simple (c ∷ s) d ≡ some r) × (length r.0 ≤ length s)
unfolding untransform_simple
untransform_simple_total c [] d = elim (Bool-cases (is_empty d)) [
  | inl h ↦ (([], d ++ (c ∷ [])), rw (untransform_simple, h) refl, omega arith)
  | inr h ↦ (([], d ++ (c ∷ [])), rw (untransform_simple, h) refl, omega arith)
]
untransform_simple_total c (b ∷ s) d = elim (Bool-cases (is_empty d && is_z_digit (c ∷ b ∷ s))) [
  | inl h ↦ ((s, d ++ (b ∷ [])), rw (untransform_simple, h) refl, omega arith)
  | inr h ↦ ((b ∷ s, d ++ (c ∷ [])), rw (untransform_simple, h) refl, omega arith)
]

length-seen : (s d : Text) → length (seen s d) ≤ length s + 1
length-seen s [] = omega arith
length-seen s (a ∷ d) = omega arith

-- Each step takes a byte or more.
untransform_total :
    (c : ℕ) (s d : Text)
    → (r : Demangled) × (untransform (c ∷ s) d ≡ some r) × (length r.0 ≤ length s)
unfolding untransform
untransform_total c s d = elim (Option-cases (untransform_hex (seen (c ∷ s) d) d)) [
  | inr (r, e) ↦ (
    r,
    rw (untransform, e) refl,
    omega (arith, length-untransform_hex (seen (c ∷ s) d) d e, length-seen (c ∷ s) d),
  )
  | inl e ↦ elim (Option-cases (untransform_entity entities (seen (c ∷ s) d) d)) [
    | inr (r, f) ↦ (
      r,
      rw (untransform, e, f) refl,
      omega (
        arith,
        length-untransform_entity entities (seen (c ∷ s) d) d names_long f,
        length-seen (c ∷ s) d,
      ),
    )
    | inl f ↦ let (r, g, l) = untransform_simple_total c s d in (r, rw (untransform, e, f) g, l)
  ]
]

untransform_all_total :
    (fuel : ℕ) (s d : Text) → length s ≤ fuel → (t : Text) × (untransform_all fuel s d ≡ some t)
unfolding untransform_all
untransform_all_total fuel [] d l = (d, refl)
untransform_all_total zero (c ∷ s) d l = absurd (omega arith)
untransform_all_total (suc fuel) (c ∷ s) d l =
    let (r, e, m) = untransform_total c s d in
    let (t, f) = untransform_all_total fuel r.0 r.1 (omega (arith, m, l)) in (t, rw (e, ◌>>=◌) f)

-- demangle ends with a string at any string: its loop takes a byte or more in each round, and no
-- byte is read past the end.
pub demangle_total : (s : Text) → (t : Text) × (demangle s ≡ some t)
unfolding demangle
demangle_total s = elim (Bool-cases (is_reserved s)) [
  | inl e ↦ (s, rw (demangle, e) refl)
  | inr e ↦ elim (Bool-cases (text_eq s (codes "v4_"))) [
    | inl q ↦ ([], rw (demangle, e, q) refl)
    | inr q ↦ elim (Option-cases (strip_prefix (codes "v4_") s)) [
      | inl a ↦ (codes "__" ++ s, rw (demangle, e, q, a) refl)
      | inr (x, a) ↦
          let (t, f) = untransform_all_total (length x) x [] (omega arith) in
          (t, rw (demangle, e, q, a) f)
    ]
  ]
]
