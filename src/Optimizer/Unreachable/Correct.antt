-- ===== src/Optimizer/Unreachable/Correct.antt =====
-- Runs and `remove_unreachable_code` of compiler/optimize.cc.
use vnpforth.Prelude.{
  some, ℕ, Bool, true, false, List, [], ◌∷◌, none, ◌≡◌, refl, arith, sym, ◌∙◌, Option-cases, inl,
  inr,
}
use mathlib.Core.Option
use vnpforth.Symbol.{Symbol}
use vnpforth.Opcode.{Opcode, Instruction, Label, instruction, is_jump_opcode}
use vnpforth.Semantics.Step.{step-jump, exec-goto, below}
use vnpforth.Semantics.Refine.{Whole, exec-nil_image, exec-kept, refine}
use vnpforth.Semantics.Layout.{Suffix-tail}
use vnpforth.Semantics.{Machine, run, Runtime, find_label, find_define}
use vnpforth.Semantics.Simulation.{Matches, goto-image}
use vnpforth.Semantics.Layout.{is_nested}
use vnpforth.Optimizer.Unreachable.{scan_unreachable, remove_unreachable_code, stays_unreachable}

abbrev image : List Opcode → List Opcode
image code = (scan_unreachable false code).opcodes

find_label-scan :
    (l : Label) (u : Bool) (P : List Opcode)
    → find_label l (scan_unreachable u P).opcodes ≡ Option.map image (find_label l P)
unfolding find_label scan_unreachable
find_label-scan l true [] = refl
find_label-scan l false [] = refl
find_label-scan l true (op ∷ rest) =
    ground (arith, find_label-scan l true rest, find_label-scan l false rest)
find_label-scan l false (op ∷ rest) =
    ground (arith, find_label-scan l true rest, find_label-scan l false rest)

-- A definition begins outside of every other, so the inner loop never meets one.
find_define-scan :
    (s : Symbol) (u inside : Bool) (P : List Opcode)
    → (u ≡ true → inside ≡ true)
    → is_nested inside P ≡ true
    → find_define s (scan_unreachable u P).opcodes ≡ Option.map image (find_define s P)
unfolding find_define scan_unreachable is_nested
find_define-scan s true inside [] hu h = refl
find_define-scan s false inside [] hu h = refl
find_define-scan s true true (op ∷ rest) hu h = ground (
  arith,
  find_define-scan s true true rest,
  find_define-scan s false true rest,
  find_define-scan s false false rest,
)
find_define-scan s true false (op ∷ rest) hu h = cc (hu refl)
find_define-scan s false true (op ∷ rest) hu h = ground (
  arith,
  find_define-scan s true true rest,
  find_define-scan s false true rest,
  find_define-scan s false false rest,
)
find_define-scan s false false (op ∷ rest) hu h = ground (arith, find_define-scan s false true rest)

stays-none : (i : Instruction) → is_jump_opcode i ≡ none → stays_unreachable false i ≡ false
unfolding stays_unreachable
stays-none i e = rw e

module _ {W : Type 0} (R : Runtime W) (P : List Opcode) (nested : is_nested false P ≡ true) where
  abbrev Q : List Opcode
  Q = (remove_unreachable_code P).opcodes

  found : Matches P Q image
  unfolding remove_unreachable_code
  found = record {
    labels = λ l. find_label-scan l false P;
    defines = λ s. find_define-scan s false false P (λ e. e) nested;
  }

  -- The code after a jump is not run, so it may differ.
  exec-whole : Whole R P Q image
  unfolding scan_unreachable
  exec-whole n lower [] s m t h = exec-nil_image R P Q image n [] m t h
  exec-whole n lower (op ∷ rest) s m t h = elim (Option-cases (is_jump_opcode (instruction op))) [
    | inl e ↦
        rw (stays-none (instruction op) e, image)
          (exec-kept R P Q image found n op rest (image rest) lower
            (exec-whole n lower rest (Suffix-tail s)) m t h)
    | inr (l, e) ↦
        let go = step-jump R (instruction op) m e in
        exec-goto R Q n op
          (scan_unreachable (stays_unreachable false (instruction op)) rest).opcodes m go
        ∙ goto-image R P Q image (below R P n) (below R Q n) lower found.defines l (found.labels l)
            m t (sym (exec-goto R P n op rest m go) ∙ h)
  ]

  -- Removing unreachable code keeps every run of a program whose definitions nest, in the meaning
  -- of the intermediate code: a run of a definition that ends in a machine, within some number of
  -- nested branches and calls, is a run of the optimized program that ends in the same machine
  -- within that number.
  pub run-remove_unreachable_code :
      (n : ℕ) (s : Symbol) (m t : Machine W)
      → run R P n s m ≡ some t
      → run R (remove_unreachable_code P).opcodes n s m ≡ some t
  run-remove_unreachable_code = refine R P Q image found.defines exec-whole
