-- ===== src/Optimizer/Labels/Correct.antt =====
-- Runs and `remove_unnecessary_labels` of compiler/optimize.cc.
use vnpforth.Prelude.{
  ℕ, true, List, [], ◌∷◌, Option, none, some, ◌≡◌, refl, sym, ◌∙◌, arith, Bool-cases, inl, inr,
  ==_refl, contains,
}
use vnpforth.Opcode.{Opcode, Label, instruction, is_label_opcode, is_branching_opcode}
use vnpforth.Symbol.{Symbol}
use vnpforth.Semantics.{Machine, run, Runtime, find_label, find_define}
use vnpforth.Semantics.Step.{step-label, exec-next}
use vnpforth.Semantics.Simulation.{MatchesLabel, MatchesDefines}
use vnpforth.Semantics.Refine.{Whole, exec-nil_image, exec-kept_if, refine}
use vnpforth.Semantics.Layout.{Suffix, here, there, Suffix-tail}
use vnpforth.Optimizer.Pass.{nop_if}
use vnpforth.Optimizer.Pass.Run.{exec-replaced}
use vnpforth.Optimizer.Labels.{used_labels, is_unused, remove_labels, remove_unnecessary_labels}

find_label-remove_labels :
    (used : List Label) (l : Label) (P : List Opcode)
    → contains used l ≡ true
    → MatchesLabel P (remove_labels used P).opcodes (λ c. (remove_labels used c).opcodes) l
unfolding find_label remove_labels
find_label-remove_labels used l [] h = refl
find_label-remove_labels used l (op ∷ rest) h =
    ground (arith, find_label-remove_labels used l rest h)

find_define-remove_labels :
    (used : List Label) (P : List Opcode)
    → MatchesDefines P (remove_labels used P).opcodes (λ c. (remove_labels used c).opcodes)
unfolding find_define remove_labels
find_define-remove_labels used [] s = refl
find_define-remove_labels used (op ∷ rest) s = ground (arith, find_define-remove_labels used rest s)

contains-used_labels :
    (l : Label) {op : Opcode} {code P : List Opcode}
    → Suffix (op ∷ code) P
    → is_branching_opcode (instruction op) ≡ some l
    → contains (used_labels P) l ≡ true
unfolding used_labels
contains-used_labels l here e = ground (arith, ==_refl l)
contains-used_labels l (there s) e = ground (arith, contains-used_labels l s e)

unused-some :
    (used : List Label) (o : Option Label) → is_unused used o ≡ true → (l : Label) × (o ≡ some l)
unused-some used none h = cc
unused-some used (some l) h = (l, refl)

module _ {W : Type 0} (R : Runtime W) (P : List Opcode) where
  image : List Opcode → List Opcode
  image code = (remove_labels (used_labels P) code).opcodes

  image-cons :
      (op : Opcode) (rest : List Opcode)
      → image (op ∷ rest)
        ≡ (nop_if
            (is_unused (used_labels P) (is_label_opcode (instruction op)))
            op
            (remove_labels (used_labels P) rest)).opcodes
  unfolding image remove_labels
  image-cons op rest = refl

  exec-image : Whole R P (image P) image
  unfolding image remove_labels
  exec-image n lower [] s m t h = exec-nil_image R P (image P) image n [] m t h
  exec-image n lower (op ∷ rest) s m t h =
      elim (Bool-cases (is_unused (used_labels P) (is_label_opcode (instruction op)))) [
        | inl q ↦
            let (l, e) = unused-some (used_labels P) (is_label_opcode (instruction op)) q in
            rw (image-cons, q)
              (exec-replaced R (image P) n op (image rest) m
                ∙ exec-image n lower rest (Suffix-tail s) m t
                    (sym (exec-next R P n op rest m m (step-label R (instruction op) m e)) ∙ h))
        | inr q ↦
            rw (image-cons, q)
              (exec-kept_if R P (image P) image (find_define-remove_labels (used_labels P) P) n op
                rest (image rest)
                (λ l e. find_label-remove_labels (used_labels P) l P (contains-used_labels l s e))
                lower (exec-image n lower rest (Suffix-tail s)) m t h)
      ]

  -- Removing the labels that no branch uses keeps every run, in the meaning of the intermediate
  -- code: a run of a definition that ends in a machine, within some number of nested branches and
  -- calls, is a run of the optimized program that ends in the same machine within that number.
  pub run-remove_unnecessary_labels :
      (n : ℕ) (s : Symbol) (m t : Machine W)
      → run R P n s m ≡ some t
      → run R (remove_unnecessary_labels P).opcodes n s m ≡ some t
  unfolding remove_unnecessary_labels image
  run-remove_unnecessary_labels =
      refine R P (image P) image (find_define-remove_labels (used_labels P) P) exec-image
