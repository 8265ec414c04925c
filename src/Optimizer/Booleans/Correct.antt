-- ===== src/Optimizer/Booleans/Correct.antt =====
-- Runs and `inline_booleans` of compiler/optimize.cc: what the words TRUE and FALSE of the runtime
-- library do.
use vnpforth.Prelude.{
  ℕ, true, List, [], ◌∷◌, ◌++◌, Option, none, some, ◌≡◌, refl, sym, ap, ◌∙◌, arith, Bool-cases, inl,
  inr,
}
use vnpforth.Symbol.{Symbol}
use vnpforth.Prelude.{Bool, true, false, not, ◌||◌, ◌&&◌, contains}
use vnpforth.Semantics.Layout.{defined}
use vnpforth.Semantics.Unique.{find_define-undefined}
use vnpforth.Opcode.{r0, data_stack, Opcode, Label, instruction, is_call_opcode}
use vnpforth.Semantics.{
  Machine, run, Runtime, follow, step, exec, find_label, find_define, set, push_cell,
}
use vnpforth.Semantics.Step.{step-call, exec-next, exec-cons}
use vnpforth.Semantics.Simulation.{Matches, MatchesLabel, MatchesDefines}
use vnpforth.Semantics.Refine.{Whole, exec-nil_image, exec-kept, refine}
use vnpforth.Semantics.Layout.{Suffix, here, there, Suffix-tail}
use vnpforth.Optimizer.Pass.Run.{exec-replaced}
use vnpforth.Optimizer.Booleans.{is_boolean, boolean_value, boolean_opcodes, inline_booleans}

abbrev image : List Opcode → List Opcode
image code = (inline_booleans code).opcodes

find_label-inline : (l : Label) (P : List Opcode) → MatchesLabel P (image P) image l
unfolding find_label inline_booleans
find_label-inline l [] = refl
find_label-inline l (op ∷ rest) = ground (arith, find_label-inline l rest)

find_define-inline : (P : List Opcode) → MatchesDefines P (image P) image
unfolding find_define inline_booleans
find_define-inline [] s = refl
find_define-inline (op ∷ rest) s = ground (arith, find_define-inline rest s)

found : (P : List Opcode) → Matches P (image P) image
found P = record { labels = λ l. find_label-inline l P; defines = find_define-inline P }

-- `: false 0 ;` and `: true -1 ;` of runtime/logic.ft: load register 0, push it on the data stack.
abbrev pub with_boolean : {W : Type 0} → Symbol → Machine W → Machine W
with_boolean s m = push_cell data_stack (boolean_value (some s)) (set r0 (boolean_value (some s)) m)

-- The runtime library's words of these names do so.
abbrev pub RunsBooleans : {W : Type 0} → Runtime W → Type 0
RunsBooleans {W} R =
    (s : Symbol)
    → is_boolean (some s) ≡ true
    → (m : Machine W) → R.run_external s m ≡ some (with_boolean s m)

-- No call of a word of these names is a call of one of the definitions given by their ids.
abbrev pub is_library_call : List ℕ → Option Symbol → Bool
is_library_call ids none = true
is_library_call ids (some s) = not (is_boolean (some s)) || not (contains ids s.id)

unfoldable pub library_booleans : List ℕ → List Opcode → Bool
unfolding is_call_opcode
library_booleans ids [] = true
library_booleans ids (op ∷ rest) =
    is_library_call ids (is_call_opcode (instruction op)) && library_booleans ids rest

pub library_booleans-suffix :
    (ids : List ℕ) {code P : List Opcode}
    → Suffix code P
    → library_booleans ids P ≡ true
    → library_booleans ids code ≡ true
unfolding library_booleans
library_booleans-suffix ids here h = h
library_booleans-suffix ids (there s) h = library_booleans-suffix ids s (ground arith)

library_booleans-head :
    (ids : List ℕ) (op : Opcode) (rest : List Opcode) {s : Symbol}
    → library_booleans ids (op ∷ rest) ≡ true
    → is_call_opcode (instruction op) ≡ some s
    → is_boolean (some s) ≡ true
    → contains ids s.id ≡ false
unfolding library_booleans
library_booleans-head ids op rest h e b = ground arith

boolean-some : (o : Option Symbol) → is_boolean o ≡ true → (s : Symbol) × (o ≡ some s)
boolean-some none h = cc
boolean-some (some s) h = (s, refl)

module _ {W : Type 0} (R : Runtime W) (P : List Opcode) (library : RunsBooleans R)
    (undefined : library_booleans (defined P) P ≡ true) where
  exec-boolean :
      (n : ℕ) (op : Opcode) (rest : List Opcode) (m : Machine W) {s : Symbol}
      → is_call_opcode (instruction op) ≡ some s
      → is_boolean (some s) ≡ true
      → Suffix (op ∷ rest) P
      → exec R P n (op ∷ rest) m ≡ exec R P n rest (with_boolean s m)
  unfolding follow
  exec-boolean n op rest m {s} e b at =
      let at_end = library_booleans-suffix (defined P) at undefined in
      let external =
        find_define-undefined s P (library_booleans-head (defined P) op rest at_end e b) in
      exec-cons R P n op rest m ∙ rw (step-call R (instruction op) m e, external, library s b m)

  exec-opcodes :
      (n : ℕ) (op : Opcode) (code : List Opcode) (m : Machine W) (s : Symbol)
      → exec R (image P) n (boolean_opcodes op (boolean_value (some s)) ++ code) m
        ≡ exec R (image P) n code (with_boolean s m)
  unfolding step
  exec-opcodes n op code m s =
      exec-replaced R (image P) n op _ m
      ∙ exec-next R (image P) n _ _ m _ refl
      ∙ exec-next R (image P) n _ _ _ _ refl

  exec-image : Whole R P (image P) image
  unfolding inline_booleans
  exec-image n lower [] s m t h = exec-nil_image R P (image P) image n [] m t h
  exec-image n lower (op ∷ rest) s m t h =
      elim (Bool-cases (is_boolean (is_call_opcode (instruction op)))) [
        | inl q ↦
            let (f, e) = boolean-some (is_call_opcode (instruction op)) q in
            rw (q, e, image)
              (exec-opcodes n op (image rest) m f
                ∙ exec-image n lower rest (Suffix-tail s) (with_boolean f m) t
                    (sym (exec-boolean n op rest m e (sym (ap is_boolean e) ∙ q) s) ∙ h))
        | inr q ↦
            rw (q, image)
              (exec-kept R P (image P) image (found P) n op rest (image rest) lower
                (exec-image n lower rest (Suffix-tail s)) m t h)
      ]

  -- Inlining the booleans keeps every run, where the runtime library runs TRUE and FALSE and no
  -- call of such a name is a call of a definition of the program, in the meaning of the
  -- intermediate code: a run of a definition that ends in a machine, within some number of nested
  -- branches and calls, is a run of the optimized program that ends in the same machine within
  -- that number.
  pub run-inline_booleans :
      (n : ℕ) (s : Symbol) (m t : Machine W)
      → run R P n s m ≡ some t
      → run R (inline_booleans P).opcodes n s m ≡ some t
  run-inline_booleans = refine R P (image P) image (found P).defines exec-image
