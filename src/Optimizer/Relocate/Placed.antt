-- ===== src/Optimizer/Relocate/Placed.antt =====
-- What `relocate_suboptimal_labels` of compiler/optimize.cc puts in the place of a label.
use vnpforth.Prelude.{
  ap, ℕ, Bool, true, false, not, ◌&&◌, ◌||◌, List, [], ◌∷◌, ◌++◌, Option, none, some, ◌≡◌, ◌∙◌, sym,
  ◌==◌, refl, arith, contains, Option-cases, Bool-cases, inl, inr, ==_iff, if◌then◌else◌,
}
use vnpforth.Opcode.{Label, Opcode, instruction, is_label_opcode}
use vnpforth.Semantics.Layout.{labels, is_nodup}
use vnpforth.Optimizer.Pass.{is_some, is_executable, replace_with_nop, Pass}
use vnpforth.Optimizer.Relocate.{
  find, Relocations, LabelSplices, build_label_splices, get_or, relocate_opcodes, relocate_opcode,
}
use vnpforth.Optimizer.Relocate.Maps.{ascends}
use vnpforth.Optimizer.Relocate.Advance.{Flat}
use vnpforth.Optimizer.Relocate.Gathered.{
  at, contains-build_label_splices, labels_only, LabelsOnly-build_label_splices,
  nodup-build_label_splices, is_target, find-build_label_splices, goes_to, moves-eq-find,
  target_moved,
}

-- The splices of relocations whose targets stay: labels alone, each once and at its target.
pub record Placed (r : Relocations) (splices : LabelSplices) : Type 0 where
  pub flat : Flat r
  pub only : (k : Label) → labels_only (at splices k) ≡ true
  pub gathered : (l k : Label) → contains (labels (at splices k)) l ≡ goes_to (find l r) k
  pub once : (k : Label) → is_nodup (labels (at splices k)) ≡ true
  pub vacant : (k : Label) → is_some (find k r) ≡ true → find k splices ≡ none

not_target :
    (r : Relocations) (k : Label)
    → ascends 0 r ≡ true
    → Flat r
    → is_some (find k r) ≡ true
    → is_target r k ≡ false
not_target r k a f h = elim (Bool-cases (is_target r k)) [
  | inl q ↦
      let (l, e) = target_moved r k q in
      let g : goes_to (find l r) k ≡ true = sym (moves-eq-find r 0 l k a) ∙ e in
      elim (Option-cases (find l r)) [
        | inl x ↦ absurd (cc (rw x at g))
        | inr (t, x) ↦
            let t_is : t ≡ k = (==_iff t k).0 (rw x at g) in
            absurd (cc (rw (f l k (rw t_is at x)) at h))
      ]
  | inr q ↦ q
]

is_some-none {ℓ} : {A : Type ℓ} (o : Option A) → is_some o ≡ false → o ≡ none
is_some-none none h = refl
is_some-none (some a) h = cc

pub Placed-build_label_splices :
    (r : Relocations) (lines : List (Label × ℕ))
    → ascends 0 r ≡ true
    → Flat r
    → Placed r (build_label_splices r lines [])
unfolding find labels
Placed-build_label_splices r lines a f = record {
  flat = f;
  only = LabelsOnly-build_label_splices r lines [] (λ k. refl);
  gathered = λ l k. contains-build_label_splices r lines [] l k ∙ moves-eq-find r 0 l k a;
  once = nodup-build_label_splices r 0 lines [] a (λ k l. (refl, λ c. absurd (cc)));
  vacant = λ k h. is_some-none _ (find-build_label_splices r lines [] k ∙ not_target r k a f h);
}

-- Where a label stands afterwards: with the label that it moves to.
abbrev pub target : Relocations → Label → Label
target r l = get_or (find l r) l

abbrev pub pieces : Relocations → LabelSplices → Label → Opcode → List Opcode
pieces r splices k op =
    if is_some (find k r) then replace_with_nop op ∷ [] else at splices k ++ (op ∷ [])

-- Opcodes that a run passes over.
abbrev pub all_idle : List Opcode → Bool
all_idle [] = true
all_idle (op ∷ rest) = not (is_executable (instruction op)) && all_idle rest

all_idle-end :
    (ops : List Opcode) (op : Opcode) {k : Label}
    → labels_only ops ≡ true
    → is_label_opcode (instruction op) ≡ some k
    → all_idle (ops ++ (op ∷ [])) ≡ true
unfolding is_executable
all_idle-end [] op h e = rw e
all_idle-end (x ∷ ops) op {k} h e = ground (arith, all_idle-end ops op {k = k})

contains-labels_with :
    (ops : List Opcode) (op : Opcode) (l : Label) {k : Label}
    → is_label_opcode (instruction op) ≡ some k
    → contains (labels (ops ++ (op ∷ []))) l ≡ (contains (labels ops) l || k == l)
unfolding labels
contains-labels_with [] op l e = rw e (ground arith)
contains-labels_with (x ∷ ops) op l {k} e = ground (arith, contains-labels_with ops op l {k = k})

nodup-labels_with :
    (ops : List Opcode) (op : Opcode) {k : Label}
    → is_label_opcode (instruction op) ≡ some k
    → is_nodup (labels ops) ≡ true
    → contains (labels ops) k ≡ false
    → is_nodup (labels (ops ++ (op ∷ []))) ≡ true
unfolding labels
nodup-labels_with [] op e h c = rw e
nodup-labels_with (x ∷ ops) op {k} e h c = elim (Option-cases (is_label_opcode (instruction x))) [
  | inl q ↦ ground (arith, nodup-labels_with ops op {k = k})
  | inr (l, q) ↦
      ground (arith, contains-labels_with ops op l {k = k}, nodup-labels_with ops op {k = k})
]

relocate_opcodes-cons :
    (r : Relocations) (splices : LabelSplices) (op : Opcode) (rest : List Opcode)
    → relocate_opcodes r splices (op ∷ rest)
      ≡ relocate_opcode
          (is_label_opcode (instruction op))
          r
          splices
          op
          (relocate_opcodes r splices rest)
unfolding relocate_opcodes
relocate_opcodes-cons r splices op rest = refl

module _ (r : Relocations) (splices : LabelSplices) (placed : Placed r splices) where
  abbrev pub image : List Opcode → List Opcode
  image code = (relocate_opcodes r splices code).opcodes

  pub image-nil : image [] ≡ []
  unfolding relocate_opcodes
  image-nil = refl

  pub image-label :
      (op : Opcode) (rest : List Opcode) {k : Label}
      → is_label_opcode (instruction op) ≡ some k
      → image (op ∷ rest) ≡ pieces r splices k op ++ image rest
  image-label op rest {k} e = elim (Option-cases (find k r)) [
    | inl a ↦ elim (Option-cases (find k splices)) [
      | inl b ↦
          ap (λ (p : Pass). p.opcodes) (relocate_opcodes-cons r splices op rest) ∙ rw (e, a, b)
      | inr (ops, b) ↦
          ap (λ (p : Pass). p.opcodes) (relocate_opcodes-cons r splices op rest) ∙ rw (e, a, b)
    ]
    | inr (t, a) ↦
        ap (λ (p : Pass). p.opcodes) (relocate_opcodes-cons r splices op rest)
        ∙ rw (e, a, placed.vacant k (rw a))
  ]

  pub image-other :
      (op : Opcode) (rest : List Opcode)
      → is_label_opcode (instruction op) ≡ none
      → image (op ∷ rest) ≡ op ∷ image rest
  image-other op rest e =
      ap (λ (p : Pass). p.opcodes) (relocate_opcodes-cons r splices op rest) ∙ rw (e)

  module _ (op : Opcode) (k : Label) (e : is_label_opcode (instruction op) ≡ some k) where
    pub all_idle-pieces : all_idle (pieces r splices k op) ≡ true
    unfolding is_executable
    all_idle-pieces = elim (Bool-cases (is_some (find k r))) [
      | inl q ↦ rw q
      | inr q ↦ rw q (all_idle-end (at splices k) op (placed.only k) e)
    ]

    -- A label that moves leaves only a no-op, and no label moves to it.
    contains-moved_away : (l : Label) → is_some (find k r) ≡ true → (target r l == k) ≡ false
    contains-moved_away l h = elim (Bool-cases (target r l == k)) [
      | inl q ↦ elim (Option-cases (find l r)) [
        | inl a ↦ let x : l ≡ k = (==_iff l k).0 (rw a at q) in absurd (cc (rw (rw x at a) at h))
        | inr (t, a) ↦
            let x : t ≡ k = (==_iff t k).0 (rw a at q) in
            absurd (cc (rw (placed.flat l k (rw x at a)) at h))
      ]
      | inr q ↦ q
    ]

    contains-moved_here :
        (l : Label) → find k r ≡ none → (goes_to (find l r) k || k == l) ≡ (target r l == k)
    contains-moved_here l h = elim (Option-cases (find l r)) [
      | inl a ↦ rw a (ground arith)
      | inr (t, a) ↦ elim (Bool-cases (k == l)) [
        | inl q ↦ let x : k ≡ l = (==_iff k l).0 q in absurd (cc (rw x at h))
        | inr q ↦ rw (a, q) (ground arith)
      ]
    ]

    pub contains-pieces :
        (l : Label) → contains (labels (pieces r splices k op)) l ≡ (target r l == k)
    unfolding labels
    contains-pieces l = elim (Option-cases (find k r)) [
      | inl a ↦ rw a (
          contains-labels_with (at splices k) op l e
          ∙ rw (placed.gathered l k) (contains-moved_here l a))
      | inr (t, a) ↦ rw a (sym (contains-moved_away l (rw a)))
    ]

    pub nodup-pieces : is_nodup (labels (pieces r splices k op)) ≡ true
    unfolding labels
    nodup-pieces = elim (Option-cases (find k r)) [
      | inl a ↦
          rw a (nodup-labels_with (at splices k) op e (placed.once k) (placed.gathered k k ∙ rw a))
      | inr (t, a) ↦ rw a
    ]
