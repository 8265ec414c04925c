-- ===== src/Optimizer/Layout/Unlabelled.antt =====
-- The shape of a program around `remove_unnecessary_labels` of compiler/optimize.cc.
use vnpforth.Prelude.{
  Bool, true, false, List, [], ◌∷◌, ◌≡◌, refl, ap, ◌∙◌, arith, Option-cases, inl, inr, contains,
}
use vnpforth.Opcode.{Opcode, Label, instruction, is_label_opcode}
use vnpforth.Semantics.Layout.{labels, defined, is_nodup, is_nested, IsLaidOut}
use vnpforth.Optimizer.Labels.{remove_labels, remove_unnecessary_labels, used_labels}

contains-remove_labels :
    (used : List Label) (l : Label) (P : List Opcode)
    → contains (labels P) l ≡ false
    → contains (labels (remove_labels used P).opcodes) l ≡ false
unfolding labels remove_labels
contains-remove_labels used l [] h = refl
contains-remove_labels used l (op ∷ rest) h = ground (arith, contains-remove_labels used l rest)

nodup-remove_labels :
    (used : List Label) (P : List Opcode)
    → is_nodup (labels P) ≡ true
    → is_nodup (labels (remove_labels used P).opcodes) ≡ true
unfolding labels remove_labels
nodup-remove_labels used [] h = refl
nodup-remove_labels used (op ∷ rest) h = elim (Option-cases (is_label_opcode (instruction op))) [
  | inl e ↦ ground (arith, nodup-remove_labels used rest)
  | inr (l, e) ↦ ground (arith, contains-remove_labels used l rest, nodup-remove_labels used rest)
]

defined-remove_labels :
    (used : List Label) (P : List Opcode) → defined (remove_labels used P).opcodes ≡ defined P
unfolding defined remove_labels
defined-remove_labels used [] = refl
defined-remove_labels used (op ∷ rest) = ground (arith, defined-remove_labels used rest)

nested-remove_labels :
    (used : List Label) (inside : Bool) (P : List Opcode)
    → is_nested inside (remove_labels used P).opcodes ≡ is_nested inside P
unfolding is_nested remove_labels
nested-remove_labels used inside [] = refl
nested-remove_labels used inside (op ∷ rest) =
    ground (arith, nested-remove_labels used true rest, nested-remove_labels used false rest)

-- Removing the labels that no branch uses keeps a program laid out: definitions nest, labels and
-- definitions stand once.
pub remove_unnecessary_labels-IsLaidOut :
    (P : List Opcode) → IsLaidOut P → IsLaidOut (remove_unnecessary_labels P).opcodes
unfolding remove_unnecessary_labels
remove_unnecessary_labels-IsLaidOut P l = record {
  nested = nested-remove_labels (used_labels P) false P ∙ l.nested;
  labels_once = nodup-remove_labels (used_labels P) P l.labels_once;
  defined_once = ap is_nodup (defined-remove_labels (used_labels P) P) ∙ l.defined_once;
}

pub remove_unnecessary_labels-defined :
    (P : List Opcode) → defined (remove_unnecessary_labels P).opcodes ≡ defined P
unfolding remove_unnecessary_labels
remove_unnecessary_labels-defined P = defined-remove_labels (used_labels P) P
