-- ===== src/Optimizer/PushPop/Correct.antt =====
-- Runs and `replace_adjacent_push_pop_pairs` of compiler/optimize.cc.
use mathlib.Core.Option
use vnpforth.Prelude.{
  ℕ, Bool, true, false, List, [], ◌∷◌, Option, none, some, ◌≡◌, refl, sym, ap, ◌∙◌, arith,
  Bool-cases, Option-cases, inl, inr, if◌then◌else◌,
}
use vnpforth.Symbol.{Symbol}
use vnpforth.Opcode.{
  Register, r0, r1, Stack, data_stack, return_stack, float_stack, push, pop, Opcode, created,
  Instruction, Label, instruction, get_line, is_noop_opcode, is_pop_opcode, register_equals,
  stack_equals,
}
use vnpforth.Semantics.{
  Machine, run, Runtime, next, step, exec, find_label, find_define, get, set, push_cell,
}
use vnpforth.Semantics.Step.{step-noop, exec-next}
use vnpforth.Semantics.Simulation.{Matches, MatchesLabel}
use vnpforth.Semantics.Refine.{Lower, exec-nil_image, exec-kept, refine}
use vnpforth.Semantics.Layout.{Suffix, Suffix-tail}
use vnpforth.Optimizer.Pass.{replace_with, replace_with_nop, is_some}
use vnpforth.Optimizer.Pass.Run.{exec-replaced}
use vnpforth.Optimizer.Jumps.{next_non_noop}
use vnpforth.Optimizer.PushPop.{move, find_pair, scan_pairs, replace_adjacent_push_pop_pairs}

abbrev pub image : List Opcode → List Opcode
image code = (scan_pairs false code).opcodes

-- In a pair, the next opcode to be removed is neither a label nor the start of a definition.
abbrev pub is_pop_next : Option Instruction → Bool
is_pop_next none = false
is_pop_next (some i) = is_some (is_pop_opcode i)

find_label-scan_pairs :
    (l : Label) (in_pair : Bool) (P : List Opcode)
    → (in_pair ≡ true → is_pop_next (next_non_noop P) ≡ true)
    → MatchesLabel P (scan_pairs in_pair P).opcodes image l
unfolding find_label scan_pairs
find_label-scan_pairs l true [] h = refl
find_label-scan_pairs l false [] h = refl
find_label-scan_pairs l true (op ∷ rest) h =
    ground (arith, find_label-scan_pairs l true rest, find_label-scan_pairs l false rest)
find_label-scan_pairs l false (op ∷ rest) h =
    ground (arith, find_label-scan_pairs l true rest, find_label-scan_pairs l false rest)

find_define-scan_pairs :
    (s : Symbol) (in_pair : Bool) (P : List Opcode)
    → (in_pair ≡ true → is_pop_next (next_non_noop P) ≡ true)
    → find_define s (scan_pairs in_pair P).opcodes ≡ Option.map image (find_define s P)
unfolding find_define scan_pairs
find_define-scan_pairs s true [] h = refl
find_define-scan_pairs s false [] h = refl
find_define-scan_pairs s true (op ∷ rest) h =
    ground (arith, find_define-scan_pairs s true rest, find_define-scan_pairs s false rest)
find_define-scan_pairs s false (op ∷ rest) h =
    ground (arith, find_define-scan_pairs s true rest, find_define-scan_pairs s false rest)

found : (P : List Opcode) → Matches P (image P) image
found P = record {
  labels = λ l. find_label-scan_pairs l false P (λ e. cc);
  defines = λ s. find_define-scan_pairs s false P (λ e. cc);
}

stack_equals-eq : (s s' : Stack) → stack_equals s s' ≡ true → s ≡ s'
unfolding stack_equals
stack_equals-eq s s' h = ground arith

-- A pair that is replaced: a push, the pop of the same stack, and the move that replaces them.
pub record Pair (first : Instruction) (second : Option Instruction) (moved : Instruction)
    : Type 0 where
  pub from : Register
  pub to : Register
  pub stack : Stack
  pub pushes : first ≡ push from stack
  pub pops : second ≡ some (pop to stack)
  pub moves : moved ≡ move from to

Pair-some :
    (from to : Register) (s s' : Stack) {i : Instruction}
    → (if stack_equals s s' then some (move from to) else none) ≡ some i
    → Pair (push from s) (some (pop to s')) i
Pair-some from to s s' h = elim (Bool-cases (stack_equals s s')) [
  | inl e ↦ record {
    from = from;
    to = to;
    stack = s;
    pushes = refl;
    pops = rw (stack_equals-eq s s' e);
    moves = cc (rw e at h);
  }
  | inr e ↦ absurd (cc (rw e at h))
]

pub find_pair-Pair :
    (first : Instruction) (second : Option Instruction) {i : Instruction}
    → find_pair first second ≡ some i
    → Pair first second i
unfolding find_pair
find_pair-Pair first none h = cc
find_pair-Pair (push from s) (some (pop to s')) h = Pair-some from to s s' h
find_pair-Pair _ (some _) h = cc

module _ {W : Type 0} (R : Runtime W) where
  step-pop_push :
      (from to : Register) (s : Stack) (m : Machine W)
      → step R (pop to s) (push_cell s (get from m) m) ≡ next (set to (get from m) m)
  unfolding step
  step-pop_push from to data_stack m = refl
  step-pop_push from to return_stack m = refl
  step-pop_push from to float_stack m = refl

  step-push :
      (from : Register) (s : Stack) (m : Machine W)
      → step R (push from s) m ≡ next (push_cell s (get from m) m)
  unfolding step
  step-push from s m = refl

  step-move :
      (from to : Register) (m : Machine W) → step R (move from to) m ≡ next (set to (get from m) m)
  unfolding step register_equals
  step-move r0 r0 m = refl
  step-move r1 r1 m = refl
  step-move r0 r1 m = refl
  step-move r1 r0 m = refl

pub scan-true_noop :
    (op : Opcode) (rest : List Opcode)
    → is_noop_opcode (instruction op) ≡ true
    → (scan_pairs true (op ∷ rest)).opcodes ≡ op ∷ (scan_pairs true rest).opcodes
unfolding scan_pairs
scan-true_noop op rest q = ground arith

pub scan-true :
    (op : Opcode) (rest : List Opcode)
    → is_noop_opcode (instruction op) ≡ false
    → (scan_pairs true (op ∷ rest)).opcodes ≡ replace_with_nop op ∷ image rest
unfolding scan_pairs
scan-true op rest q = ground arith

pub scan-false_pair :
    (op : Opcode) (rest : List Opcode) {i : Instruction}
    → find_pair (instruction op) (next_non_noop rest) ≡ some i
    → image (op ∷ rest) ≡ replace_with op (created i (get_line op)) ∷ (scan_pairs true rest).opcodes
unfolding scan_pairs
scan-false_pair op rest q = rw (q, image)

pub scan-false :
    (op : Opcode) (rest : List Opcode)
    → find_pair (instruction op) (next_non_noop rest) ≡ none
    → image (op ∷ rest) ≡ op ∷ image rest
unfolding scan_pairs
scan-false op rest q = rw (q, image)

module _ {W : Type 0} (R : Runtime W) (P : List Opcode) where
  mutual
    unfolding next_non_noop

    exec-pair :
        (n : ℕ)
        → Lower R P (image P) image n
        → (rest : List Opcode) → Suffix rest P
        → (to : Register) (stack : Stack) → next_non_noop rest ≡ some (pop to stack)
        → (m₁ m₂ t : Machine W) → step R (pop to stack) m₁ ≡ next m₂
        → exec R P n rest m₁ ≡ some t
        → exec R (image P) n (scan_pairs true rest).opcodes m₂ ≡ some t
    exec-pair n lower [] s to stack e m₁ m₂ t p h = cc
    exec-pair n lower (op ∷ rest) s to stack e m₁ m₂ t p h =
        elim (Bool-cases (is_noop_opcode (instruction op))) [
          | inl q ↦ rw (scan-true_noop op rest q) (
              exec-next R (image P) n op _ m₂ m₂ (step-noop R (instruction op) m₂ q)
              ∙ exec-pair n lower rest (Suffix-tail s) to stack (cc (rw q at e)) m₁ m₂ t p
                  (sym (exec-next R P n op rest m₁ m₁ (step-noop R (instruction op) m₁ q)) ∙ h))
          | inr q ↦ rw (scan-true op rest q) (
              exec-replaced R (image P) n op (image rest) m₂
              ∙ exec-whole n lower rest (Suffix-tail s) m₂ t (
                  sym (exec-next R P n op rest m₁ m₂ (ap (λ i. step R i m₁) (cc (rw q at e)) ∙ p))
                  ∙ h))
        ]

    exec-whole :
        (n : ℕ)
        → Lower R P (image P) image n
        → (code : List Opcode) → Suffix code P
        → (m t : Machine W) → exec R P n code m ≡ some t
        → exec R (image P) n (image code) m ≡ some t
    exec-whole n lower [] s m t h = exec-nil_image R P (image P) image n (image []) m t h
    exec-whole n lower (op ∷ rest) s m t h =
        elim (Option-cases (find_pair (instruction op) (next_non_noop rest))) [
          | inl e ↦ rw (scan-false op rest e) (
              exec-kept R P (image P) image (found P) n op rest (image rest) lower
                (exec-whole n lower rest (Suffix-tail s)) m t h)
          | inr (i, e) ↦
              let p = find_pair-Pair (instruction op) (next_non_noop rest) e in
              let m₁ : Machine W = push_cell p.stack (get p.from m) m in
              let m₂ : Machine W = set p.to (get p.from m) m in
              rw (scan-false_pair op rest e) (
                exec-next R (image P) n _ _ m m₂
                  (ap (λ j. step R j m) p.moves ∙ step-move R p.from p.to m)
                ∙ exec-pair n lower rest (Suffix-tail s) p.to p.stack p.pops m₁ m₂ t
                    (step-pop_push R p.from p.to p.stack m)
                    (sym (
                        exec-next R P n op rest m m₁
                          (ap (λ j. step R j m) p.pushes ∙ step-push R p.from p.stack m))
                      ∙ h))
        ]

  -- Replacing adjacent push-pop pairs keeps every run, in the meaning of the intermediate code: a
  -- run of a definition that ends in a machine, within some number of nested branches and calls,
  -- is a run of the optimized program that ends in the same machine within that number.
  pub run-replace_adjacent_push_pop_pairs :
      (n : ℕ) (s : Symbol) (m t : Machine W)
      → run R P n s m ≡ some t
      → run R (replace_adjacent_push_pop_pairs P).opcodes n s m ≡ some t
  unfolding replace_adjacent_push_pop_pairs
  run-replace_adjacent_push_pop_pairs = refine R P (image P) image (found P).defines exec-whole
