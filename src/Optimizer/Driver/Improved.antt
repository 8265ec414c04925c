-- ===== src/Optimizer/Driver/Improved.antt =====
-- What each pass of compiler/optimize.cc does to a program that is ready for it.
use vnpforth.Prelude.{true, false, List, some, ◌≡◌, ◌∙◌, sym}
use mathlib.Core.Path.{subst}
use vnpforth.Opcode.{Opcode}
use vnpforth.Semantics.{Runtime, Refines}
use vnpforth.Semantics.Layout.{IsLaidOut, defined}
use vnpforth.Optimizer.Layout.{SameLayout, SameLayout-IsLaidOut}
use vnpforth.Optimizer.Layout.Single.{
  remove_unreachable_code-SameLayout, remove_unnecessary_jumps-SameLayout,
  remove_useless_calls-SameLayout, inline_booleans-SameLayout,
}
use vnpforth.Optimizer.Layout.Spliced.{replace_adjacent_push_pop_pairs-SameLayout}
use vnpforth.Optimizer.Layout.Inlined.{inline_small_functions-SameLayout}
use vnpforth.Optimizer.Layout.Unlabelled.{
  remove_unnecessary_labels-IsLaidOut, remove_unnecessary_labels-defined,
}
use vnpforth.Optimizer.Layout.Relocated.{relocated, image-IsLaidOut}
use vnpforth.Optimizer.Pass.{Pass}
use vnpforth.Optimizer.Unreachable.{remove_unreachable_code}
use vnpforth.Optimizer.Unreachable.Correct.{run-remove_unreachable_code}
use vnpforth.Optimizer.Jumps.{remove_unnecessary_jumps}
use vnpforth.Optimizer.Jumps.Correct.{run-remove_unnecessary_jumps}
use vnpforth.Optimizer.UselessCalls.{remove_useless_calls, find_empty_functions, no_scan}
use vnpforth.Optimizer.UselessCalls.Correct.{run-remove_useless_calls}
use vnpforth.Optimizer.Booleans.{inline_booleans}
use vnpforth.Optimizer.Booleans.Correct.{run-inline_booleans, RunsBooleans, library_booleans}
use vnpforth.Optimizer.SmallFunctions.{inline_small_functions}
use vnpforth.Optimizer.SmallFunctions.Correct.{run-inline_small_functions}
use vnpforth.Optimizer.PushPop.{replace_adjacent_push_pop_pairs}
use vnpforth.Optimizer.PushPop.Correct.{run-replace_adjacent_push_pop_pairs}
use vnpforth.Optimizer.Relocate.{relocate_opcodes, relocate_suboptimal_labels}
use vnpforth.Optimizer.Relocate.Placed.{image}
use vnpforth.Optimizer.Relocate.Correct.{run-relocate_suboptimal_labels}
use vnpforth.Optimizer.Labels.{used_labels, remove_unnecessary_labels}
use vnpforth.Optimizer.Labels.Correct.{run-remove_unnecessary_labels}
use vnpforth.Optimizer.Driver.Library.{
  library-scan, library-jumps, library-calls, library-booleans, library-labels,
  library-inline_small_functions, library-pairs, library-moved,
}

Refines-then :
    {W : Type 0} (R : Runtime W) (P Q S : List Opcode)
    → Refines R P Q
    → Refines R Q S
    → Refines R P S
Refines-then R P Q S f g n s m t h = g n s m t (f n s m t h)

-- What a program relies on: its shape, and what its calls of TRUE and FALSE are.
abbrev pub IsReady : List Opcode → Type 0
IsReady P = IsLaidOut P × (library_booleans (defined P) P ≡ true)

IsReady-next :
    (P Q : List Opcode)
    → IsLaidOut Q
    → defined Q ≡ defined P
    → library_booleans (defined P) Q ≡ true
    → IsReady Q
IsReady-next P Q l e b = (l, subst (λ ids. library_booleans ids Q ≡ true) (sym e) b)

IsReady-same :
    (P Q : List Opcode)
    → IsReady P
    → SameLayout P Q
    → library_booleans (defined P) Q ≡ true
    → IsReady Q
IsReady-same P Q r e b = IsReady-next P Q (SameLayout-IsLaidOut e r.0) e.same_defined b

module _ {W : Type 0} (R : Runtime W) (library : RunsBooleans R) where
  -- What a pass does to a program that is ready.
  abbrev pub Improved : List Opcode → List Opcode → Type 0
  Improved P Q = Refines R P Q × IsReady Q

  pub Improved-then :
      (P Q S : List Opcode) → Improved P Q → (IsReady Q → Improved Q S) → Improved P S
  Improved-then P Q S (f, r) g = let (h, r') = g r in (Refines-then R P Q S f h, r')

  pub Improved-remove_unreachable_code :
      (P : List Opcode) → IsReady P → Improved P (remove_unreachable_code P).opcodes
  unfolding remove_unreachable_code
  Improved-remove_unreachable_code P r = (
    run-remove_unreachable_code R P r.0.nested,
    IsReady-same P (remove_unreachable_code P).opcodes r
        (remove_unreachable_code-SameLayout P r.0.nested) (library-scan (defined P) false P r.1),
  )

  pub Improved-remove_unnecessary_jumps :
      (P : List Opcode) → IsReady P → Improved P (remove_unnecessary_jumps P).opcodes
  Improved-remove_unnecessary_jumps P r = (
    run-remove_unnecessary_jumps R P r.0.labels_once,
    IsReady-same P (remove_unnecessary_jumps P).opcodes r (remove_unnecessary_jumps-SameLayout P)
        (library-jumps (defined P) P r.1),
  )

  pub Improved-remove_useless_calls :
      (P : List Opcode) → IsReady P → Improved P (remove_useless_calls P).opcodes
  unfolding remove_useless_calls
  Improved-remove_useless_calls P r = (
    run-remove_useless_calls R P r.0.defined_once,
    IsReady-same P (remove_useless_calls P).opcodes r (remove_useless_calls-SameLayout P)
        (library-calls (defined P) (find_empty_functions P no_scan) P r.1),
  )

  pub Improved-inline_booleans :
      (P : List Opcode) → IsReady P → Improved P (inline_booleans P).opcodes
  Improved-inline_booleans P r = (
    run-inline_booleans R P library r.1,
    IsReady-same P (inline_booleans P).opcodes r (inline_booleans-SameLayout P)
        (library-booleans (defined P) P r.1),
  )

  pub Improved-inline_small_functions :
      (P : List Opcode) → IsReady P → Improved P (inline_small_functions P).opcodes
  Improved-inline_small_functions P r = (
    run-inline_small_functions R P r.0.defined_once,
    IsReady-same P (inline_small_functions P).opcodes r
        (inline_small_functions-SameLayout P r.0.defined_once)
        (library-inline_small_functions (defined P) P r.0.defined_once r.1),
  )

  pub Improved-replace_adjacent_push_pop_pairs :
      (P : List Opcode) → IsReady P → Improved P (replace_adjacent_push_pop_pairs P).opcodes
  unfolding replace_adjacent_push_pop_pairs
  Improved-replace_adjacent_push_pop_pairs P r = (
    run-replace_adjacent_push_pop_pairs R P,
    IsReady-same P (replace_adjacent_push_pop_pairs P).opcodes r
        (replace_adjacent_push_pop_pairs-SameLayout P) (library-pairs (defined P) false P r.1),
  )

  pub Improved-remove_unnecessary_labels :
      (P : List Opcode) → IsReady P → Improved P (remove_unnecessary_labels P).opcodes
  unfolding remove_unnecessary_labels
  Improved-remove_unnecessary_labels P r = (
    run-remove_unnecessary_labels R P,
    IsReady-next P (remove_unnecessary_labels P).opcodes (remove_unnecessary_labels-IsLaidOut P r.0)
        (remove_unnecessary_labels-defined P) (library-labels (defined P) (used_labels P) P r.1),
  )

  pub Improved-relocate_suboptimal_labels :
      (P : List Opcode) (p : Pass)
      → relocate_suboptimal_labels P ≡ some p
      → IsReady P
      → Improved P p.opcodes
  Improved-relocate_suboptimal_labels P p e r = (
    run-relocate_suboptimal_labels R P r.0.labels_once p e,
    let (m, splices, placed, q) = relocated P in
        let (l, d) = image-IsLaidOut m splices placed P r.0 in
        let same : some (relocate_opcodes m splices P) ≡ some p = sym q ∙ e in
        let same' : relocate_opcodes m splices P ≡ p = cc in
        subst (λ (x : Pass). IsReady x.opcodes) same'
          (IsReady-next P (image m splices placed P) l d
            (library-moved (defined P) m splices placed P r.1)),
  )
