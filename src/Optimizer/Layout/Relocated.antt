-- ===== src/Optimizer/Layout/Relocated.antt =====
-- The shape of a program around `relocate_suboptimal_labels` of compiler/optimize.cc.
use vnpforth.Prelude.{
  Bool, true, false, List, [], ◌∷◌, some, ◌≡◌, ◌∙◌, sym, ap, ◌==◌, refl, arith, contains,
  Option-cases, inl, inr, ==_iff,
}
use mathlib.Core.Path.{subst}
use vnpforth.Opcode.{Label, Opcode, instruction, is_label_opcode, is_jump_opcode}
use vnpforth.Semantics.Layout.{labels, defined, is_nodup, is_nested, IsLaidOut}
use vnpforth.Optimizer.Pass.{Pass}
use vnpforth.Optimizer.Relocate.{
  Relocations, LabelSplices, RelocationScan, step_relocation, scan_relocations, keys,
  no_relocations, relocate_opcodes, build_label_splices, relocate_suboptimal_labels,
}
use vnpforth.Optimizer.Relocate.Total.{present-keys, scan_relocations-forward}
use vnpforth.Optimizer.Relocate.Maps.{ascends, ascends-assign}
use vnpforth.Optimizer.Relocate.Advance.{advance_all-Sound}
use vnpforth.Optimizer.Relocate.Placed.{
  Placed, Placed-build_label_splices, target, pieces, image, image-nil, image-label, image-other,
  all_idle-pieces, contains-pieces, nodup-pieces,
}
use vnpforth.Optimizer.Relocate.Correct.{contains-keys}
use vnpforth.Optimizer.Layout.Pieces.{
  labels-append, contains-append, nodup-append, labels_nil, labels-skip, labels-label,
  defined-all_idle, nested-all_idle, nested-label, defined-label, defined-kept, nested-kept,
}

ascends-step_relocation :
    (op : Opcode) (v : RelocationScan)
    → ascends 0 v.relocations ≡ true
    → ascends 0 (step_relocation op v).relocations ≡ true
unfolding step_relocation
ascends-step_relocation op v h = elim (Option-cases (is_jump_opcode (instruction op))) [
  | inl e ↦ ground arith
  | inr (t, e) ↦ elim (Option-cases v.current_label) [
    | inl c ↦ ground arith
    | inr (l, c) ↦ ground (arith, ascends-assign 0 l t v.relocations)
  ]
]

ascends-scan_relocations :
    (code : List Opcode) (v : RelocationScan)
    → ascends 0 v.relocations ≡ true
    → ascends 0 (scan_relocations code v).relocations ≡ true
unfolding scan_relocations
ascends-scan_relocations [] v h = h
ascends-scan_relocations (op ∷ rest) v h =
    ascends-scan_relocations rest (step_relocation op v) (ascends-step_relocation op v h)

-- The pass, with splices that hold labels alone.
pub relocated :
    (P : List Opcode)
    → (r : Relocations) × (splices : LabelSplices) × Placed r splices
      × (relocate_suboptimal_labels P ≡ some (relocate_opcodes r splices P))
unfolding relocate_suboptimal_labels
relocated P =
    let scan = scan_relocations P no_relocations in
    let m = scan.relocations in
    let (r, e, s, f) =
      advance_all-Sound (λ l t. Unit {0}) (λ l. tt) (λ a b c x y. tt) (keys m) m
        (record {
          forward = scan_relocations-forward P no_relocations refl;
          ascending = ascends-scan_relocations P no_relocations refl;
          leads = λ l t h. tt;
        })
        (present-keys m) (λ l t c h. absurd (cc (contains-keys l m h))) in
    (
      r,
      build_label_splices r scan.label_lines [],
      Placed-build_label_splices r scan.label_lines s.ascending f,
      rw e,
    )

module _ (r : Relocations) (splices : LabelSplices) (placed : Placed r splices) where
  abbrev moved : List Opcode → List Opcode
  moved = image r splices placed

  contains-moved :
      (l : Label) (code : List Opcode)
      → contains (labels (moved code)) l ≡ contains (labels code) (target r l)
  contains-moved l [] = rw (image-nil r splices placed, labels_nil)
  contains-moved l (op ∷ rest) = elim (Option-cases (is_label_opcode (instruction op))) [
    | inl e ↦
        ap (λ c. contains (labels c) l) (image-other r splices placed op rest e)
        ∙ rw (labels-skip op (moved rest) e, labels-skip op rest e) (contains-moved l rest)
    | inr (k, e) ↦
        ap (λ c. contains (labels c) l) (image-label r splices placed op rest e)
        ∙ ap (λ ls. contains ls l) (labels-append (pieces r splices k op) (moved rest))
        ∙ contains-append (labels (pieces r splices k op)) (labels (moved rest)) l
        ∙ rw
            (
              contains-pieces r splices placed op k e l,
              contains-moved l rest,
              labels-label op rest e,
            )
            (ground arith)
  ]

  nodup-moved :
      (code : List Opcode) → is_nodup (labels code) ≡ true → is_nodup (labels (moved code)) ≡ true
  nodup-moved [] h = rw (image-nil r splices placed, labels_nil)
  nodup-moved (op ∷ rest) h = elim (Option-cases (is_label_opcode (instruction op))) [
    | inl e ↦
        ap (λ c. is_nodup (labels c)) (image-other r splices placed op rest e)
        ∙ rw (labels-skip op (moved rest) e) (nodup-moved rest (rw (labels-skip op rest e) at h))
    | inr (k, e) ↦
        let h' : is_nodup (k ∷ labels rest) ≡ true = rw (labels-label op rest e) at h in
        ap (λ c. is_nodup (labels c)) (image-label r splices placed op rest e)
        ∙ ap is_nodup (labels-append (pieces r splices k op) (moved rest))
        ∙ nodup-append (labels (pieces r splices k op)) (labels (moved rest))
            (nodup-pieces r splices placed op k e) (nodup-moved rest (ground arith))
            (λ l c.
              let here : (target r l == k) ≡ true =
                sym (contains-pieces r splices placed op k e l) ∙ c in
              let k_is : target r l ≡ k = (==_iff (target r l) k).0 here in
              contains-moved l rest ∙ rw k_is (ground arith))
  ]

  defined-moved : (code : List Opcode) → defined (moved code) ≡ defined code
  defined-moved [] = ap defined (image-nil r splices placed)
  defined-moved (op ∷ rest) = elim (Option-cases (is_label_opcode (instruction op))) [
    | inl e ↦
        ap defined (image-other r splices placed op rest e)
        ∙ defined-kept op rest (moved rest) (defined-moved rest)
    | inr (k, e) ↦
        ap defined (image-label r splices placed op rest e)
        ∙ defined-all_idle (pieces r splices k op) (moved rest)
            (all_idle-pieces r splices placed op k e)
        ∙ defined-moved rest
        ∙ sym (defined-label op rest e)
  ]

  nested-moved :
      (code : List Opcode) (inside : Bool)
      → is_nested inside code ≡ true
      → is_nested inside (moved code) ≡ true
  nested-moved [] inside h = ap (is_nested inside) (image-nil r splices placed) ∙ h
  nested-moved (op ∷ rest) inside h = elim (Option-cases (is_label_opcode (instruction op))) [
    | inl e ↦
        ap (is_nested inside) (image-other r splices placed op rest e)
        ∙ nested-kept inside op rest (moved rest) (nested-moved rest) h
    | inr (k, e) ↦
        let (i, h') = nested-label inside op rest e h in
        ap (is_nested inside) (image-label r splices placed op rest e)
        ∙ rw i (
            nested-all_idle (pieces r splices k op) (moved rest)
              (all_idle-pieces r splices placed op k e)
            ∙ nested-moved rest true h')
  ]

  IsLaidOut-moved : (P : List Opcode) → IsLaidOut P → IsLaidOut (moved P)
  IsLaidOut-moved P l = record {
    nested = nested-moved P false l.nested;
    labels_once = nodup-moved P l.labels_once;
    defined_once = ap is_nodup (defined-moved P) ∙ l.defined_once;
  }

pub image-IsLaidOut :
    (r : Relocations) (splices : LabelSplices) (placed : Placed r splices) (P : List Opcode)
    → IsLaidOut P
    → IsLaidOut (image r splices placed P) × (defined (image r splices placed P) ≡ defined P)
image-IsLaidOut r splices placed P l =
    (IsLaidOut-moved r splices placed P l, defined-moved r splices placed P)

-- The relocation of labels keeps a program laid out, with its definitions properly nested and its
-- labels and definitions standing once, and leaves the same definitions in the same order.
pub relocate_suboptimal_labels-IsLaidOut :
    (P : List Opcode) (p : Pass)
    → relocate_suboptimal_labels P ≡ some p
    → IsLaidOut P
    → IsLaidOut p.opcodes × (defined p.opcodes ≡ defined P)
relocate_suboptimal_labels-IsLaidOut P p e l =
    let (r, splices, placed, q) = relocated P in
    let same : some (relocate_opcodes r splices P) ≡ some p = sym q ∙ e in
    let same' : relocate_opcodes r splices P ≡ p = cc in
    subst (λ (x : Pass). IsLaidOut x.opcodes × (defined x.opcodes ≡ defined P)) same'
      (image-IsLaidOut r splices placed P l)
