-- ===== src/Optimizer/Layout.antt =====
-- The shape of a program before and after the passes of compiler/optimize.cc.
pub mod Single
pub mod Spliced
pub mod Inlined
pub mod Unlabelled
pub mod Pieces
pub mod Relocated
use vnpforth.Prelude.{
  ℕ, Bool, true, false, List, [], ◌∷◌, ◌≡◌, ◌∙◌, ap, none, arith, contains, refl,
}
use vnpforth.Symbol.{Symbol}
use vnpforth.Opcode.{Opcode}
use vnpforth.Semantics.{find_define}
use vnpforth.Semantics.Layout.{IsLaidOut, is_nested, labels, defined, is_nodup}

-- The labels, the definitions and the nesting are the same.
pub record SameLayout (P Q : List Opcode) : Type 0 where
  pub same_nesting : is_nested false Q ≡ is_nested false P
  pub same_labels : labels Q ≡ labels P
  pub same_defined : defined Q ≡ defined P

pub SameLayout-IsLaidOut : {P Q : List Opcode} → SameLayout P Q → IsLaidOut P → IsLaidOut Q
SameLayout-IsLaidOut e l = record {
  nested = e.same_nesting ∙ l.nested;
  labels_once = ap is_nodup e.same_labels ∙ l.labels_once;
  defined_once = ap is_nodup e.same_defined ∙ l.defined_once;
}
