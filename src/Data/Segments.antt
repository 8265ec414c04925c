-- ===== src/Data/Segments.antt =====
-- `DataTable::add` of compiler/dattable.cc: the first datum of the segment that a datum is in.
use vnpforth.Prelude.{
  ℕ, Bool, true, false, not, ◌&&◌, ◌||◌, List, [], ◌∷◌, ◌++◌, Option, none, some, ◌==◌, ==_refl,
  Text, text_eq, text_eq-path, if◌then◌else◌, ◌≡◌, ◌∙◌, ap, refl, arith, Bool-cases, inl, inr,
}
use vnpforth.Data.{
  Data, Segments, get_signature, id_of_first, set_synonym_of, add_segment, text_ltb,
}
use vnpforth.Data.Signature.{all_bytes}

abbrev pub signature_of : Data → Text
signature_of d = get_signature d.type d.chunk

abbrev pub has_id : ℕ → List Data → Bool
has_id i [] = false
has_id i (d ∷ ds) = d.id == i || has_id i ds

abbrev pub first_datum : List Data → Option Data
first_datum [] = none
first_datum (d ∷ ds) = some d

-- The first datum of the segment with the id.
abbrev pub first_of : ℕ → Segments → Option Data
first_of i [] = none
first_of i ((key, ds) ∷ rest) = if has_id i ds then first_datum ds else first_of i rest

abbrev pub is_fresh : ℕ → Segments → Bool
is_fresh i [] = true
is_fresh i ((key, ds) ∷ rest) = not (has_id i ds) && is_fresh i rest

-- Each segment begins with a datum of its signature.
pub data Headed : Segments → Type 0 where
  no_segments : Headed []
  segment :
      {f : Data} {ds : List Data} {rest : Segments}
      → all_bytes f.chunk ≡ true
      → Headed rest
      → Headed ((signature_of f, f ∷ ds) ∷ rest)

has_id-append : (i : ℕ) (ds es : List Data) → has_id i (ds ++ es) ≡ (has_id i ds || has_id i es)
has_id-append i [] es = refl
has_id-append i (d ∷ ds) es = ground (arith, has_id-append i ds es)

same_id : (o : Option ℕ) (d : Data) → (set_synonym_of o d).id ≡ d.id
same_id none d = refl
same_id (some i) d = refl

text_eq_self : (s : Text) → text_eq s s ≡ true
text_eq_self [] = refl
text_eq_self (c ∷ s) = ground (arith, ==_refl c, text_eq_self s)

module _ (d : Data) where
  abbrev added : Text → Segments → Segments
  added s segs = add_segment s d segs

  pub Headed-add_segment :
      {segs : Segments}
      → all_bytes d.chunk ≡ true
      → Headed segs
      → Headed (added (signature_of d) segs)
  unfolding add_segment
  Headed-add_segment b no_segments = segment b no_segments
  Headed-add_segment b (segment {f} {ds} {rest} h k) =
      elim (Bool-cases (text_eq (signature_of f) (signature_of d))) [
        | inl e ↦ rw (add_segment, e) (segment h k)
        | inr e ↦ elim (Bool-cases (text_ltb (signature_of d) (signature_of f))) [
          | inl l ↦ rw (add_segment, e, l) (segment b (segment h k))
          | inr l ↦ rw (add_segment, e, l) (segment h (Headed-add_segment b k))
        ]
      ]

  has_id-more :
      (j : ℕ) (ds : List Data)
      → (d.id == j) ≡ false
      → has_id j (ds ++ (set_synonym_of (id_of_first ds) d ∷ [])) ≡ has_id j ds
  has_id-more j ds n =
      has_id-append j ds (set_synonym_of (id_of_first ds) d ∷ [])
      ∙ rw (same_id (id_of_first ds) d, n) (ground arith)

  first_of-more :
      (j : ℕ) (key : Text) (ds : List Data) (rest : Segments)
      → (d.id == j) ≡ false
      → first_of j ((key, ds ++ (set_synonym_of (id_of_first ds) d ∷ [])) ∷ rest)
        ≡ first_of j ((key, ds) ∷ rest)
  first_of-more j key [] rest n = rw (first_of, n) refl
  first_of-more j key (f ∷ ds) rest n = rw (first_of, has_id-more j (f ∷ ds) n) refl

  -- The other data have the same first datum.
  pub first_of-add_segment :
      (j : ℕ) (s : Text) (segs : Segments)
      → (d.id == j) ≡ false
      → first_of j (added s segs) ≡ first_of j segs
  unfolding add_segment
  first_of-add_segment j s [] n = rw (first_of, n) refl
  first_of-add_segment j s ((key, ds) ∷ rest) n = elim (Bool-cases (text_eq key s)) [
    | inl e ↦ rw (add_segment, e) (first_of-more j key ds rest n)
    | inr e ↦ elim (Bool-cases (text_ltb s key)) [
      | inl l ↦ rw (add_segment, e, l) (rw (first_of, n) refl)
      | inr l ↦
          rw (add_segment, e, l)
            (elim (Bool-cases (has_id j ds)) [
              | inl h ↦ rw (first_of, h) refl
              | inr h ↦ rw (first_of, h) (first_of-add_segment j s rest n)
            ])
    ]
  ]

  pub is_fresh-add_segment :
      (j : ℕ) (s : Text) (segs : Segments)
      → (d.id == j) ≡ false
      → is_fresh j segs ≡ true
      → is_fresh j (added s segs) ≡ true
  unfolding add_segment
  is_fresh-add_segment j s [] n h = rw n refl
  is_fresh-add_segment j s ((key, ds) ∷ rest) n h =
      let onward = is_fresh-add_segment j s rest n (ground arith) in
      elim (Bool-cases (text_eq key s)) [
        | inl e ↦ rw (add_segment, e) (rw (has_id-more j ds n) h)
        | inr e ↦ elim (Bool-cases (text_ltb s key)) [
          | inl l ↦ rw (add_segment, e, l) (ground arith)
          | inr l ↦ rw (add_segment, e, l) (ground arith)
        ]
      ]

  has_id-new :
      (o : Option ℕ) (ds : List Data) → has_id d.id (ds ++ (set_synonym_of o d ∷ [])) ≡ true
  has_id-new o ds =
      has_id-append d.id ds (set_synonym_of o d ∷ [])
      ∙ rw (same_id o d, ==_refl d.id) (ground arith)

  -- The new datum is in a segment that begins with a datum of its signature.
  pub first_of-new :
      {segs : Segments}
      → all_bytes d.chunk ≡ true
      → Headed segs
      → is_fresh d.id segs ≡ true
      → (f : Data) × (first_of d.id (added (signature_of d) segs) ≡ some f)
        × (signature_of f ≡ signature_of d)
        × (all_bytes f.chunk ≡ true)
  unfolding add_segment
  first_of-new b no_segments h = (d, rw (first_of, ==_refl d.id) refl, refl, b)
  first_of-new b (segment {f} {ds} {rest} c k) h =
      elim (Bool-cases (text_eq (signature_of f) (signature_of d))) [
        | inl e ↦ (
          f,
          rw (add_segment, e)
              (ap (λ b. if b then some f else first_of d.id rest)
                (has_id-new (some f.id) (f ∷ ds))),
          text_eq-path (signature_of f) (signature_of d) e,
          c,
        )
        | inr e ↦ elim (Bool-cases (text_ltb (signature_of d) (signature_of f))) [
          | inl l ↦ (d, rw (add_segment, e, l) (rw (first_of, ==_refl d.id) refl), refl, b)
          | inr l ↦
              let (x, p, q, r) = first_of-new b k (ground arith) in
              let other : has_id d.id (f ∷ ds) ≡ false = ground arith in
              (
                x,
                rw (add_segment, e, l)
                    (ap
                        (λ b.
                          if b then some f else first_of d.id (add_segment (signature_of d) d rest))
                        other
                      ∙ p),
                q,
                r,
              )
        ]
      ]
