-- ===== src/Optimizer/Jumps/Correct.antt =====
-- Runs and `remove_unnecessary_jumps` of compiler/optimize.cc: the jump goes where the code after
-- it goes.
use mathlib.Core.Option
use mathlib.Core.Path.{subst}
use vnpforth.Prelude.{
  ℕ, true, List, [], ◌∷◌, Option, none, some, ◌≡◌, refl, arith, Bool-cases, Option-cases, inl, inr,
  ==_iff, ap, sym, if◌then◌else◌, ◌∙◌,
}
use vnpforth.Symbol.{Symbol}
use vnpforth.Opcode.{
  Opcode, Instruction, Label, instruction, is_label_opcode, is_branching_opcode, is_noop_opcode,
}
use vnpforth.Semantics.Step.{step-branching, step-label, step-noop, exec-next, exec-goto, below}
use vnpforth.Semantics.{Machine, run, Runtime, arrive, exec, find_label, find_define}
use vnpforth.Semantics.Fuel.{below-exec}
use vnpforth.Semantics.Refine.{Whole, exec-nil_image, exec-kept, refine}
use vnpforth.Optimizer.Pass.Run.{exec-replaced}
use vnpforth.Semantics.Simulation.{Matches}
use vnpforth.Semantics.Layout.{Suffix, Suffix-tail, labels, is_nodup}
use vnpforth.Semantics.Unique.{find_label-suffix}
use vnpforth.Optimizer.Jumps.{targets, remove_unnecessary_jumps, next_non_noop, jumps_to_next}

abbrev image : List Opcode → List Opcode
image code = (remove_unnecessary_jumps code).opcodes

find_label-jumps :
    (l : Label) (P : List Opcode) → find_label l (image P) ≡ Option.map image (find_label l P)
unfolding find_label remove_unnecessary_jumps
find_label-jumps l [] = refl
find_label-jumps l (op ∷ rest) = ground (arith, find_label-jumps l rest)

find_define-jumps :
    (s : Symbol) (P : List Opcode) → find_define s (image P) ≡ Option.map image (find_define s P)
unfolding find_define remove_unnecessary_jumps
find_define-jumps s [] = refl
find_define-jumps s (op ∷ rest) = ground (arith, find_define-jumps s rest)

found : (P : List Opcode) → Matches P (image P) image
found P = record { labels = λ l. find_label-jumps l P; defines = λ s. find_define-jumps s P }

-- The code behind the first opcode that is not a no-op.
after_next : List Opcode → List Opcode
after_next [] = []
after_next (op ∷ rest) = if is_noop_opcode (instruction op) then after_next rest else rest

find_label-after_next :
    (l : Label) (rest P : List Opcode) {j : Instruction}
    → next_non_noop rest ≡ some j
    → is_label_opcode j ≡ some l
    → Suffix rest P
    → is_nodup (labels P) ≡ true
    → find_label l P ≡ some (after_next rest)
unfolding next_non_noop after_next
find_label-after_next l [] P e f s h = cc
find_label-after_next l (op ∷ rest) P {j} e f s h =
    elim (Bool-cases (is_noop_opcode (instruction op))) [
      | inl q ↦ rw q (find_label-after_next l rest P {j = j} (cc) f (Suffix-tail s) h)
      | inr q ↦ rw q (find_label-suffix l s (cc) h)
    ]

module _ {W : Type 0} (R : Runtime W) where
  exec-after_next :
      (P : List Opcode) (n : ℕ) (rest : List Opcode) (m : Machine W) {j : Instruction} {l : Label}
      → next_non_noop rest ≡ some j
      → is_label_opcode j ≡ some l
      → exec R P n rest m ≡ exec R P n (after_next rest) m
  unfolding next_non_noop after_next
  exec-after_next P n [] m e f = cc
  exec-after_next P n (op ∷ rest) m {j} {l} e f =
      elim (Bool-cases (is_noop_opcode (instruction op))) [
        | inl q ↦ rw q (
            exec-next R P n op rest m m (step-noop R (instruction op) m q)
            ∙ exec-after_next P n rest m {j = j} {l = l} (cc) f)
        | inr q ↦ rw q (exec-next R P n op rest m m (step-label R (instruction op) m {l = l} (cc)))
      ]

targets-true : (a b : Option Label) → targets a b ≡ true → (l : Label) × (a ≡ some l) × (b ≡ some l)
targets-true none b h = cc
targets-true (some x) none h = cc
targets-true (some x) (some y) h = (x, refl, ap some (sym ((==_iff x y).0 h)))

module _ {W : Type 0} (R : Runtime W) (P : List Opcode) (once : is_nodup (labels P) ≡ true) where
  -- Where the branch is taken, the run goes on behind the label, which the code after it reaches.
  exec-removed :
      (n : ℕ) (op : Opcode) (rest : List Opcode) (m t : Machine W) {l : Label} {j : Instruction}
      → is_branching_opcode (instruction op) ≡ some l
      → next_non_noop rest ≡ some j
      → is_label_opcode j ≡ some l
      → Suffix rest P
      → exec R P n (op ∷ rest) m ≡ some t
      → exec R P n rest m ≡ some t
  exec-removed n op rest m t {l} eb ej el s h = elim (step-branching R (instruction op) m eb) [
    | inl go ↦
        exec-after_next R P n rest m ej el
        ∙ below-exec R P n (after_next rest) m t (
            subst (λ o. arrive R P (below R P n) m o ≡ some t)
              (find_label-after_next l rest P ej el s once)
              (sym (exec-goto R P n op rest m go) ∙ h))
    | inr on ↦ sym (exec-next R P n op rest m m on) ∙ h
  ]

  exec-image : Whole R P (image P) image
  unfolding remove_unnecessary_jumps jumps_to_next
  exec-image n lower [] s m t h = exec-nil_image R P (image P) image n [] m t h
  exec-image n lower (op ∷ rest) s m t h = elim (Option-cases (next_non_noop rest)) [
    | inl e ↦
        rw (e, image)
          (exec-kept R P (image P) image (found P) n op rest (image rest) lower
            (exec-image n lower rest (Suffix-tail s)) m t h)
    | inr (j, e) ↦
        elim (Bool-cases (targets (is_branching_opcode (instruction op)) (is_label_opcode j))) [
          | inl q ↦
              let (l, eb, el) = targets-true _ _ q in
              rw (e, q, image)
                (exec-replaced R (image P) n op (image rest) m
                  ∙ exec-image n lower rest (Suffix-tail s) m t
                      (exec-removed n op rest m t eb e el (Suffix-tail s) h))
          | inr q ↦
              rw (e, q, image)
                (exec-kept R P (image P) image (found P) n op rest (image rest) lower
                  (exec-image n lower rest (Suffix-tail s)) m t h)
        ]
  ]

  -- Removing unnecessary jumps keeps every run of a program whose labels stand once, in the
  -- meaning of the intermediate code: a run of a definition that ends in a machine, within some
  -- number of nested branches and calls, is a run of the optimized program that ends in the same
  -- machine within that number.
  pub run-remove_unnecessary_jumps :
      (n : ℕ) (s : Symbol) (m t : Machine W)
      → run R P n s m ≡ some t
      → run R (remove_unnecessary_jumps P).opcodes n s m ≡ some t
  run-remove_unnecessary_jumps = refine R P (image P) image (found P).defines exec-image
