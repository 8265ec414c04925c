-- ===== src/Optimizer/Relocate/Gathered.antt =====
-- What `build_label_splices` of compiler/optimize.cc gathers at each target.
use vnpforth.Prelude.{
  ℕ, suc, ◌≤◌, ◌<◌, Bool, true, false, ◌&&◌, ◌||◌, List, [], ◌∷◌, ◌++◌, Option, none, some, ◌≡◌,
  ◌∙◌, sym, ◌==◌, refl, arith, contains, Option-cases, Bool-cases, inl, inr, ==_iff, ==_refl,
  if◌then◌else◌,
}
use vnpforth.Opcode.{Label, Opcode, created, label, instruction, is_label_opcode}
use vnpforth.Semantics.Layout.{labels, is_nodup}
use vnpforth.Optimizer.Pass.{is_some}
use vnpforth.Optimizer.Relocate.{
  find, assign, Relocations, LabelSplices, build_label_splices, get_or,
}
use vnpforth.Optimizer.Relocate.Maps.{find-assign, ascends}

abbrev pub at : LabelSplices → Label → List Opcode
at splices k = get_or (find k splices) []

at-assign :
    (t k : Label) (ops : List Opcode) (splices : LabelSplices)
    → at (assign t ops splices) k ≡ (if t == k then ops else at splices k)
at-assign t k ops splices = elim (Bool-cases (t == k)) [
  | inl q ↦ rw (find-assign k t ops splices, q)
  | inr q ↦ rw (find-assign k t ops splices, q)
]

-- Some entry moves `l` to `k`.
abbrev pub moves : Relocations → Label → Label → Bool
moves [] l k = false
moves ((v, t) ∷ rest) l k = (v == l && t == k) || moves rest l k

contains-labels_end :
    (ops : List Opcode) (v n l : Label)
    → contains (labels (ops ++ (created (label v) n ∷ []))) l ≡ (contains (labels ops) l || v == l)
unfolding labels is_label_opcode
contains-labels_end [] v n l = ground arith
contains-labels_end (op ∷ rest) v n l = ground (arith, contains-labels_end rest v n l)

nodup-labels_end :
    (ops : List Opcode) (v n : Label)
    → is_nodup (labels ops) ≡ true
    → contains (labels ops) v ≡ false
    → is_nodup (labels (ops ++ (created (label v) n ∷ []))) ≡ true
unfolding labels is_label_opcode
nodup-labels_end [] v n h c = refl
nodup-labels_end (op ∷ rest) v n h c = elim (Option-cases (is_label_opcode (instruction op))) [
  | inl e ↦ ground (arith, nodup-labels_end rest v n)
  | inr (l, e) ↦ ground (arith, contains-labels_end rest v n l, nodup-labels_end rest v n)
]

-- The labels that go to `k` are those that entries move there.
pub contains-build_label_splices :
    (es : Relocations) (lines : List (Label × ℕ)) (splices : LabelSplices) (l k : Label)
    → contains (labels (at (build_label_splices es lines splices) k)) l
      ≡ (contains (labels (at splices k)) l || moves es l k)
unfolding build_label_splices
contains-build_label_splices [] lines splices l k = ground arith
contains-build_label_splices ((v, t) ∷ rest) lines splices l k =
    let n = get_or (find v lines) 0 in
    let ops = at splices t ++ (created (label v) n ∷ []) in
    contains-build_label_splices rest lines (assign t ops splices) l k
    ∙ elim (Bool-cases (t == k)) [
      | inl q ↦
          let e : t ≡ k = (==_iff t k).0 q in
          rw (at-assign t k ops splices, q, contains-labels_end (at splices t) v n l) (ground arith)
      | inr q ↦ rw (at-assign t k ops splices, q) (ground arith)
    ]

abbrev pub labels_only : List Opcode → Bool
labels_only [] = true
labels_only (op ∷ rest) = is_some (is_label_opcode (instruction op)) && labels_only rest

labels_only-end :
    (ops : List Opcode) (v n : Label)
    → labels_only ops ≡ true
    → labels_only (ops ++ (created (label v) n ∷ [])) ≡ true
unfolding is_label_opcode
labels_only-end [] v n h = refl
labels_only-end (op ∷ rest) v n h = ground (arith, labels_only-end rest v n)

abbrev LabelsOnly : LabelSplices → Type 0
LabelsOnly splices = (k : Label) → labels_only (at splices k) ≡ true

pub LabelsOnly-build_label_splices :
    (es : Relocations) (lines : List (Label × ℕ)) (splices : LabelSplices)
    → LabelsOnly splices
    → LabelsOnly (build_label_splices es lines splices)
unfolding build_label_splices
LabelsOnly-build_label_splices [] lines splices h k = h k
LabelsOnly-build_label_splices ((v, t) ∷ rest) lines splices h k =
    let n = get_or (find v lines) 0 in
    let ops = at splices t ++ (created (label v) n ∷ []) in
    LabelsOnly-build_label_splices rest lines (assign t ops splices)
      (λ j. elim (Bool-cases (t == j)) [
        | inl q ↦ rw (at-assign t j ops splices, q) (labels_only-end (at splices t) v n (h t))
        | inr q ↦ rw (at-assign t j ops splices, q) (h j)
      ])
      k

-- The labels gathered so far are below those that follow, and none is gathered twice.
abbrev Fresh : ℕ → LabelSplices → Type 0
Fresh b splices =
    (k l : Label)
    → (is_nodup (labels (at splices k)) ≡ true)
      × (contains (labels (at splices k)) l ≡ true → l < b)

not_contained :
    (l : Label) (ops : List Opcode)
    → (contains (labels ops) l ≡ true → l < l)
    → contains (labels ops) l ≡ false
not_contained l ops h = elim (Bool-cases (contains (labels ops) l)) [
  | inl q ↦ absurd (omega (arith, h q))
  | inr q ↦ q
]

Fresh-assign :
    (b v t n : ℕ) (splices : LabelSplices)
    → Fresh b splices
    → b ≤ v
    → Fresh (suc v) (assign t (at splices t ++ (created (label v) n ∷ [])) splices)
Fresh-assign b v t n splices f le k l =
    let ops = at splices t ++ (created (label v) n ∷ []) in
    elim (Bool-cases (t == k)) [
      | inl q ↦
          let v_new : contains (labels (at splices t)) v ≡ false =
            not_contained v (at splices t) (λ c. absurd (omega (arith, (f t v).1 c))) in
          (
            rw (at-assign t k ops splices, q) (nodup-labels_end (at splices t) v n (f t v).0 v_new),
            λ c.
                let c' : (contains (labels (at splices t)) l || v == l) ≡ true =
                  sym (contains-labels_end (at splices t) v n l)
                  ∙ (rw (at-assign t k ops splices, q) at c) in
                elim (Bool-cases (v == l)) [
                  | inl e ↦ omega (arith, (==_iff v l).0 e)
                  | inr e ↦ omega (arith, (f t l).1 (ground arith))
                ],
          )
      | inr q ↦ (
        rw (at-assign t k ops splices, q) (f k l).0,
        λ c. omega (arith, (f k l).1 (rw (at-assign t k ops splices, q) at c)),
      )
    ]

pub nodup-build_label_splices :
    (es : Relocations) (b : ℕ) (lines : List (Label × ℕ)) (splices : LabelSplices)
    → ascends b es ≡ true
    → Fresh b splices
    → (k : Label) → is_nodup (labels (at (build_label_splices es lines splices) k)) ≡ true
unfolding build_label_splices
nodup-build_label_splices [] b lines splices h f k = (f k k).0
nodup-build_label_splices ((v, t) ∷ rest) b lines splices h f k =
    let n = get_or (find v lines) 0 in
    nodup-build_label_splices rest (suc v) lines
      (assign t (at splices t ++ (created (label v) n ∷ [])) splices) (ground arith)
      (Fresh-assign b v t n splices f (ground arith)) k

-- Some entry goes to `k`.
abbrev pub is_target : Relocations → Label → Bool
is_target [] k = false
is_target ((v, t) ∷ rest) k = t == k || is_target rest k

pub find-build_label_splices :
    (es : Relocations) (lines : List (Label × ℕ)) (splices : LabelSplices) (k : Label)
    → is_some (find k (build_label_splices es lines splices))
      ≡ (is_some (find k splices) || is_target es k)
unfolding build_label_splices
find-build_label_splices [] lines splices k = ground arith
find-build_label_splices ((v, t) ∷ rest) lines splices k =
    let ops = at splices t ++ (created (label v) (get_or (find v lines) 0) ∷ []) in
    find-build_label_splices rest lines (assign t ops splices) k ∙ elim (Bool-cases (t == k)) [
      | inl q ↦ rw (find-assign k t ops splices, q) (ground arith)
      | inr q ↦ rw (find-assign k t ops splices, q) (ground arith)
    ]

-- Where the keys ascend an entry is what the map finds.
abbrev pub goes_to : Option Label → Label → Bool
goes_to none k = false
goes_to (some t) k = t == k

moves-below : (m : Relocations) (b l k : Label) → ascends b m ≡ true → l < b → moves m l k ≡ false
moves-below [] b l k h lt = refl
moves-below ((v, t) ∷ rest) b l k h lt = ground (arith, moves-below rest (suc v) l k)

pub moves-eq-find :
    (m : Relocations) (b l k : Label) → ascends b m ≡ true → moves m l k ≡ goes_to (find l m) k
unfolding find
moves-eq-find [] b l k h = refl
moves-eq-find ((v, t) ∷ rest) b l k h = elim (Bool-cases (v == l)) [
  | inl q ↦ let e : v ≡ l = (==_iff v l).0 q in ground (arith, moves-below rest (suc v) l k)
  | inr q ↦ ground (arith, moves-eq-find rest (suc v) l k)
]

pub target_moved :
    (m : Relocations) (k : Label) → is_target m k ≡ true → (l : Label) × (moves m l k ≡ true)
target_moved [] k h = absurd (cc)
target_moved ((v, t) ∷ rest) k h = elim (Bool-cases (t == k)) [
  | inl q ↦ (v, ground (arith, ==_refl v))
  | inr q ↦ let (l, e) = target_moved rest k (rw q at h) in (l, ground arith)
]
