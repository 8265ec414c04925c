-- ===== src/Data/Behind.antt =====
-- What stands behind the label of a datum in the lines that `DataTable::generate` of
-- compiler/codegen.cc prints.
use vnpforth.Prelude.{
  ℕ, zero, suc, ◌+◌, ◌≤◌, ◌<◌, Bool, true, ◌&&◌, List, [], ◌∷◌, ◌++◌, Option, none, some, ◌==◌,
  Text, if◌then◌else◌, ◌≡◌, ◌∙◌, ap, refl, arith, Bool-cases, inl, inr,
}
use mathlib.Core.Path.{subst}
use vnpforth.Data.{
  DataType, Data, Segments, DataTable, no_data, new_data, get_signature, Line, section_rodata,
  data_label, string_directive, generate_data, data_labels, generate_segments, generate,
}
use vnpforth.Data.Signature.{all_bytes, get_signature_injective}
use vnpforth.Data.Segments.{
  signature_of, has_id, first_of, is_fresh, Headed, no_segments, segment, Headed-add_segment,
  first_of-add_segment, is_fresh-add_segment, first_of-new,
}

-- The first string of the lines.
abbrev pub next_string : List Line → Option Text
next_string [] = none
next_string (string_directive s ∷ rest) = some s
next_string (section_rodata ∷ rest) = next_string rest
next_string (data_label i ∷ rest) = next_string rest

-- The string behind the label of a datum.
abbrev pub string_behind : ℕ → List Line → Option Text
string_behind i [] = none
string_behind i (string_directive s ∷ rest) = string_behind i rest
string_behind i (section_rodata ∷ rest) = string_behind i rest
string_behind i (data_label j ∷ rest) = if j == i then next_string rest else string_behind i rest

abbrev string_of : Option Data → Option Text
string_of none = none
string_of (some d) = some (generate_data d.type d.chunk)

next_string-data_labels :
    (ds : List Data) (s : Text) (rest : List Line)
    → next_string (data_labels ds ++ (string_directive s ∷ rest)) ≡ some s
unfolding data_labels
next_string-data_labels [] s rest = refl
next_string-data_labels (d ∷ ds) s rest = next_string-data_labels ds s rest

string_behind-data_labels :
    (i : ℕ) (ds : List Data) (s : Text) (rest : List Line)
    → string_behind i (data_labels ds ++ (string_directive s ∷ rest))
      ≡ (if has_id i ds then some s else string_behind i rest)
unfolding data_labels
string_behind-data_labels i [] s rest = refl
string_behind-data_labels i (d ∷ ds) s rest = elim (Bool-cases (d.id == i)) [
  | inl e ↦ rw e (next_string-data_labels ds s rest)
  | inr e ↦ rw e (string_behind-data_labels i ds s rest)
]

string_behind-segments :
    (i : ℕ) {segs : Segments}
    → Headed segs
    → string_behind i (generate_segments segs) ≡ string_of (first_of i segs)
unfolding generate_segments
string_behind-segments i no_segments = refl
string_behind-segments i (segment {f} {ds} {rest} b k) =
    string_behind-data_labels i (f ∷ ds) (generate_data f.type f.chunk) (generate_segments rest)
    ∙ elim (Bool-cases (has_id i (f ∷ ds))) [
      | inl e ↦ rw (first_of, e) refl
      | inr e ↦ rw (first_of, e) (string_behind-segments i k)
    ]

generate-segments :
    (i : ℕ) (segs : Segments) (count : ℕ)
    → string_behind i (generate (record { segments = segs; count = count }))
      ≡ string_behind i (generate_segments segs)
unfolding generate
generate-segments i [] count = refl
generate-segments i (s ∷ segs) count = refl

string_behind-generate :
    (i : ℕ) (t : DataTable)
    → Headed t.segments
    → string_behind i (generate t) ≡ string_of (first_of i t.segments)
string_behind-generate i t k = generate-segments i t.segments t.count ∙ string_behind-segments i k

-- A datum that is added: its class, its bytes and its line.
pub record Piece : Type 0 where
  pub type : DataType
  pub chunk : Text
  pub line : ℕ

abbrev pub add_all : List Piece → DataTable → DataTable
add_all [] t = t
add_all (p ∷ ps) t = add_all ps (new_data p.type p.chunk p.line t)

abbrev pub piece_at : ℕ → List Piece → Option Piece
piece_at k [] = none
piece_at zero (p ∷ ps) = some p
piece_at (suc k) (p ∷ ps) = piece_at k ps

abbrev pub pieces_bytes : List Piece → Bool
pieces_bytes [] = true
pieces_bytes (p ∷ ps) = all_bytes p.chunk && pieces_bytes ps

-- A table that has given its ids in order.
record Filled (t : DataTable) : Type 0 where
  headed : Headed t.segments
  unused : (i : ℕ) → t.count ≤ i → is_fresh i t.segments ≡ true

module _ (t : DataTable) (p : Piece) (b : all_bytes p.chunk ≡ true) (filled : Filled t) where
  abbrev datum : Data
  datum = record { id = t.count; chunk = p.chunk; line = p.line; type = p.type; synonym_of = none }

  abbrev next : DataTable
  next = new_data p.type p.chunk p.line t

  Filled-new_data : Filled next
  unfolding new_data
  Filled-new_data = record {
    headed = Headed-add_segment datum b filled.headed;
    unused = λ i h.
        is_fresh-add_segment datum i (signature_of datum) t.segments (ground arith)
          (filled.unused i (omega arith));
  }

  first_of-before : (j : ℕ) → j < t.count → first_of j next.segments ≡ first_of j t.segments
  unfolding new_data
  first_of-before j h = first_of-add_segment datum j (signature_of datum) t.segments (ground arith)

  first_of-here :
      (f : Data) × (first_of t.count next.segments ≡ some f)
      × (signature_of f ≡ get_signature p.type p.chunk)
      × (all_bytes f.chunk ≡ true)
  unfolding new_data
  first_of-here = first_of-new datum b filled.headed (filled.unused t.count (omega arith))

count-new_data :
    (type : DataType) (chunk : Text) (line : ℕ) (t : DataTable)
    → (new_data type chunk line t).count ≡ t.count + 1
unfolding new_data
count-new_data type chunk line t = refl

-- The first datum of the segment of each piece that is added has the piece's signature.
abbrev Stands : DataTable → ℕ → Piece → Type 0
Stands t i p =
    (f : Data) × (first_of i t.segments ≡ some f)
    × (signature_of f ≡ get_signature p.type p.chunk)
    × (all_bytes f.chunk ≡ true)

first_of-add_all :
    (ps : List Piece) (t : DataTable)
    → pieces_bytes ps ≡ true
    → Filled t
    → (j : ℕ) → j < t.count
    → first_of j (add_all ps t).segments ≡ first_of j t.segments
first_of-add_all [] t b filled j h = refl
first_of-add_all (p ∷ ps) t b filled j h =
    first_of-add_all ps (next t p (ground arith) filled) (ground arith)
      (Filled-new_data t p (ground arith) filled) j
      (rw (count-new_data p.type p.chunk p.line t) (omega arith))
    ∙ first_of-before t p (ground arith) filled j h

Filled-add_all :
    (ps : List Piece) (t : DataTable) → pieces_bytes ps ≡ true → Filled t → Filled (add_all ps t)
Filled-add_all [] t b filled = filled
Filled-add_all (p ∷ ps) t b filled =
    Filled-add_all ps (new_data p.type p.chunk p.line t) (ground arith)
      (Filled-new_data t p (ground arith) filled)

Stands-add_all :
    (ps : List Piece) (t : DataTable) (k : ℕ) {p : Piece}
    → pieces_bytes ps ≡ true
    → Filled t
    → piece_at k ps ≡ some p
    → Stands (add_all ps t) (t.count + k) p
Stands-add_all [] t k b filled e = absurd (cc)
Stands-add_all (x ∷ ps) t zero {p} b filled e =
    let same : x ≡ p = cc in
    let zero_more : t.count ≡ t.count + 0 = omega arith in
    let b' : all_bytes x.chunk ≡ true = ground arith in
    let (f, g, h, c) = first_of-here t x b' filled in
    let after =
      first_of-add_all ps (new_data x.type x.chunk x.line t) (ground arith)
        (Filled-new_data t x b' filled) t.count
        (rw (count-new_data x.type x.chunk x.line t) (omega arith)) in
    subst (λ (y : Piece). Stands (add_all ps (new_data x.type x.chunk x.line t)) (t.count + 0) y)
      same
      (subst (λ (i : ℕ). Stands (add_all ps (new_data x.type x.chunk x.line t)) i x) zero_more
        (f, after ∙ g, h, c))
Stands-add_all (x ∷ ps) t (suc k) {p} b filled e =
    let u = new_data x.type x.chunk x.line t in
    let b' : all_bytes x.chunk ≡ true = ground arith in
    let one_more : u.count + k ≡ t.count + suc k =
      rw (count-new_data x.type x.chunk x.line t) (omega arith) in
    subst (λ (i : ℕ). Stands (add_all ps u) i p) one_more
      (Stands-add_all ps u k {p = p} (ground arith) (Filled-new_data t x b' filled) e)

Filled-no_data : Filled no_data
Filled-no_data = record { headed = no_segments; unused = λ i h. refl }

bytes_at :
    (ps : List Piece) (k : ℕ) {p : Piece}
    → pieces_bytes ps ≡ true
    → piece_at k ps ≡ some p
    → all_bytes p.chunk ≡ true
bytes_at [] k b e = absurd (cc)
bytes_at (x ∷ ps) zero {p} b e = let same : x ≡ p = cc in rw (← same) (ground arith)
bytes_at (x ∷ ps) (suc k) {p} b e = bytes_at ps k {p = p} (ground arith) e

-- In the lines that DataTable::generate prints, the string behind the label of each datum that the
-- table was given is the one that the datum's own generator prints for its bytes, though the table
-- prints the data of one signature only once.
pub string_behind-add_all :
    (ps : List Piece) (k : ℕ) (p : Piece)
    → pieces_bytes ps ≡ true
    → piece_at k ps ≡ some p
    → string_behind k (generate (add_all ps no_data)) ≡ some (generate_data p.type p.chunk)
string_behind-add_all ps k p b e =
    let (f, g, h, c) = Stands-add_all ps no_data k {p = p} b Filled-no_data e in
    let zero_more : k ≡ 0 + k = omega arith in
    let (same_type, same_chunk) =
      get_signature_injective f.type p.type f.chunk p.chunk c (bytes_at ps k {p = p} b e) h in
    string_behind-generate k (add_all ps no_data)
      (Filled-add_all ps no_data b Filled-no_data).headed
    ∙ ap string_of (ap (λ i. first_of i (add_all ps no_data).segments) zero_more ∙ g)
    ∙ ap some (ap (λ x. generate_data x f.chunk) same_type ∙ ap (generate_data p.type) same_chunk)
