-- ===== src/Semantics/Step.antt =====
-- What a step of an opcode of each class is.
use vnpforth.Prelude.{
  ℕ, zero, suc, List, [], ◌∷◌, none, true, Option, some, ◌≡◌, ◌⊎◌, ◌∙◌, refl, arith,
}
use vnpforth.Symbol.{Symbol}
use vnpforth.Opcode.{
  Opcode, instruction, Instruction, jump, call, label, no_op, Label, is_jump_opcode,
  is_label_opcode, is_noop_opcode, is_call_opcode, is_branching_opcode,
}
use vnpforth.Semantics.{
  Machine, Runtime, next, goto, enter, step, exec, follow, arrive, stuck, find_label,
}

module _ {W : Type 0} (R : Runtime W) where
  pub step-jump :
      (i : Instruction) (m : Machine W) {l : Label}
      → is_jump_opcode i ≡ some l
      → step R i m ≡ goto l m
  unfolding step is_jump_opcode
  step-jump (jump k) m e = cc
  step-jump _ m e = cc

  pub step-label :
      (i : Instruction) (m : Machine W) {l : Label}
      → is_label_opcode i ≡ some l
      → step R i m ≡ next m
  unfolding step is_label_opcode
  step-label (label k) m e = refl
  step-label _ m e = cc

  pub step-noop : (i : Instruction) (m : Machine W) → is_noop_opcode i ≡ true → step R i m ≡ next m
  unfolding step is_noop_opcode
  step-noop no_op m e = refl
  step-noop _ m e = cc

  pub step-call :
      (i : Instruction) (m : Machine W) {s : Symbol}
      → is_call_opcode i ≡ some s
      → step R i m ≡ enter s m
  unfolding step is_call_opcode
  step-call (call s) m e = cc
  step-call _ m e = cc

  -- A branch goes to its label or goes on, and changes nothing else.
  pub step-branching :
      (i : Instruction) (m : Machine W) {l : Label}
      → is_branching_opcode i ≡ some l
      → (step R i m ≡ goto l m) ⊎ (step R i m ≡ next m)
  unfolding step is_branching_opcode
  step-branching (no_op) m e = cc
  step-branching _ m e = ground arith

  module _ (P : List Opcode) where
    -- An opcode that goes on takes no fuel.
    pub exec-next :
        (n : ℕ) (op : Opcode) (code : List Opcode) (m m' : Machine W)
        → step R (instruction op) m ≡ next m'
        → exec R P n (op ∷ code) m ≡ exec R P n code m'
    unfolding exec follow
    exec-next zero op code m m' e = rw e
    exec-next (suc n) op code m m' e = rw e

    -- Where a branch or a call takes the run: with one unit of fuel less, if there is one.
    abbrev pub below : ℕ → List Opcode → Machine W → Option (Machine W)
    below zero = stuck R P
    below (suc n) = exec R P n

    pub exec-cons :
        (n : ℕ) (op : Opcode) (code : List Opcode) (m : Machine W)
        → exec R P n (op ∷ code) m
          ≡ follow R P (exec R P n code) (below n) (step R (instruction op) m)
    unfolding exec
    exec-cons zero op code m = refl
    exec-cons (suc n) op code m = refl

    pub exec-nil : (n : ℕ) (m : Machine W) → exec R P n [] m ≡ none
    unfolding exec
    exec-nil zero m = refl
    exec-nil (suc n) m = refl

    -- A branch that is taken takes one unit.
    pub exec-goto :
        (n : ℕ) (op : Opcode) (code : List Opcode) (m : Machine W) {l : Label} {m' : Machine W}
        → step R (instruction op) m ≡ goto l m'
        → exec R P n (op ∷ code) m ≡ arrive R P (below n) m' (find_label l P)
    unfolding follow
    exec-goto n op code m e = exec-cons n op code m ∙ rw e

  pub branching_of_goto :
      (i : Instruction) (m : Machine W) {l : Label} {m' : Machine W}
      → step R i m ≡ goto l m'
      → is_branching_opcode i ≡ some l
  unfolding step is_branching_opcode
  branching_of_goto no_op m e = cc
  branching_of_goto _ m e = ground arith
