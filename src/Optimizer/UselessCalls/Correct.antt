-- ===== src/Optimizer/UselessCalls/Correct.antt =====
-- Runs and `remove_useless_calls` of compiler/optimize.cc: the call of an empty definition returns
-- at once.
use vnpforth.Prelude.{
  ℕ, zero, suc, true, false, List, [], ◌∷◌, Option, none, some, ◌≡◌, refl, sym, ◌∙◌, arith,
  Bool-cases, inl, inr, ◌>>=◌,
}
use vnpforth.Symbol.{Symbol}
use vnpforth.Opcode.{
  no_op, Opcode, Instruction, Label, instruction, is_label_opcode, is_noop_opcode, is_call_opcode,
  is_enddefine_opcode,
}
use vnpforth.Semantics.{
  Machine, run, Runtime, next, leave, follow, step, exec, find_label, find_define,
}
use vnpforth.Semantics.Step.{step-call, exec-next, exec-cons, below}
use vnpforth.Semantics.Simulation.{Matches, MatchesLabel, MatchesDefines}
use vnpforth.Semantics.Refine.{Whole, exec-nil_image, exec-kept, refine}
use vnpforth.Semantics.Layout.{Suffix-tail, defined, is_nodup}
use vnpforth.Optimizer.Pass.{nop_if, SymbolSet, holds, is_executable}
use vnpforth.Optimizer.Pass.Run.{exec-replaced}
use vnpforth.Optimizer.UselessCalls.{
  no_scan, find_empty_functions, calls_empty, remove_calls, remove_useless_calls,
}
use vnpforth.Optimizer.UselessCalls.Found.{find_empty_functions-body, is_empty_body}

find_label-remove_calls :
    (empty : SymbolSet) (l : Label) (P : List Opcode)
    → MatchesLabel P (remove_calls empty P).opcodes (λ c. (remove_calls empty c).opcodes) l
unfolding find_label remove_calls
find_label-remove_calls empty l [] = refl
find_label-remove_calls empty l (op ∷ rest) = ground (arith, find_label-remove_calls empty l rest)

find_define-remove_calls :
    (empty : SymbolSet) (P : List Opcode)
    → MatchesDefines P (remove_calls empty P).opcodes (λ c. (remove_calls empty c).opcodes)
unfolding find_define remove_calls
find_define-remove_calls empty [] s = refl
find_define-remove_calls empty (op ∷ rest) s = ground (arith, find_define-remove_calls empty rest s)

calls_empty-some :
    (empty : SymbolSet) (o : Option Symbol)
    → calls_empty empty o ≡ true
    → (s : Symbol) × (o ≡ some s) × (holds empty s ≡ true)
calls_empty-some empty none h = cc
calls_empty-some empty (some s) h = (s, refl, h)

module _ {W : Type 0} (R : Runtime W) (P : List Opcode) where
  pub idle_step : (i : Instruction) (m : Machine W) → is_executable i ≡ false → step R i m ≡ next m
  unfolding step is_executable is_label_opcode is_noop_opcode
  idle_step no_op m h = refl
  idle_step _ m h = ground arith

  pub end_step :
      (i : Instruction) (m : Machine W) → is_enddefine_opcode i ≡ true → step R i m ≡ leave m
  unfolding step is_enddefine_opcode
  end_step no_op m h = cc
  end_step _ m h = ground arith

  exec-is_empty_body :
      (n : ℕ) (body : List Opcode) (m : Machine W)
      → is_empty_body body ≡ true
      → exec R P n body m ≡ some m
  unfolding is_empty_body follow
  exec-is_empty_body n [] m h = cc
  exec-is_empty_body n (op ∷ rest) m h = elim (Bool-cases (is_enddefine_opcode (instruction op))) [
    | inl q ↦ exec-cons R P n op rest m ∙ rw (end_step (instruction op) m q)
    | inr q ↦
        exec-next R P n op rest m m (idle_step (instruction op) m (ground arith))
        ∙ exec-is_empty_body n rest m (ground arith)
  ]

  abbrev empties : SymbolSet
  empties = find_empty_functions P no_scan

  image : List Opcode → List Opcode
  image code = (remove_calls empties code).opcodes

  image-cons :
      (op : Opcode) (rest : List Opcode)
      → image (op ∷ rest)
        ≡ (nop_if
            (calls_empty empties (is_call_opcode (instruction op)))
            op
            (remove_calls empties rest)).opcodes
  unfolding image remove_calls
  image-cons op rest = refl

  found : Matches P (image P) image
  unfolding image
  found = record {
    labels = λ l. find_label-remove_calls empties l P;
    defines = find_define-remove_calls empties P;
  }

  -- A call of an empty definition goes on with nothing changed, or finds no fuel.
  exec-call_empty :
      (once : is_nodup (defined P) ≡ true) (n : ℕ) (op : Opcode) (rest : List Opcode)
      (m t : Machine W) (s : Symbol)
      → is_call_opcode (instruction op) ≡ some s
      → holds empties s ≡ true
      → exec R P n (op ∷ rest) m ≡ some t
      → exec R P n rest m ≡ some t
  unfolding follow
  exec-call_empty once n op rest m t s e q h =
      let (body, at, idle) = find_empty_functions-body s P once q in
      call n body at idle
        (rw (step-call R (instruction op) m e, at) at (sym (exec-cons R P n op rest m) ∙ h))
    where
      call :
          (n : ℕ) (body : List Opcode)
          → find_define s P ≡ some body
          → is_empty_body body ≡ true
          → (below R P n body m >>= exec R P n rest) ≡ some t
          → exec R P n rest m ≡ some t
      call zero body at idle h = cc
      call (suc k) body at idle h = rw (exec-is_empty_body k body m idle) at h

  module _ (once : is_nodup (defined P) ≡ true) where
    exec-image : Whole R P (image P) image
    unfolding image remove_calls
    exec-image n lower [] s m t h = exec-nil_image R P (image P) image n [] m t h
    exec-image n lower (op ∷ rest) s m t h =
        elim (Bool-cases (calls_empty empties (is_call_opcode (instruction op)))) [
          | inl q ↦
              let (f, e, g) = calls_empty-some empties (is_call_opcode (instruction op)) q in
              rw (image-cons, q)
                (exec-replaced R (image P) n op (image rest) m
                  ∙ exec-image n lower rest (Suffix-tail s) m t
                      (exec-call_empty once n op rest m t f e g h))
          | inr q ↦
              rw (image-cons, q)
                (exec-kept R P (image P) image found n op rest (image rest) lower
                  (exec-image n lower rest (Suffix-tail s)) m t h)
        ]

    -- Removing the calls of empty definitions keeps every run of a program that defines a symbol
    -- once, in the meaning of the intermediate code: a run of a definition that ends in a machine,
    -- within some number of nested branches and calls, is a run of the optimized program that ends
    -- in the same machine within that number.
    pub run-remove_useless_calls :
        (n : ℕ) (s : Symbol) (m t : Machine W)
        → run R P n s m ≡ some t
        → run R (remove_useless_calls P).opcodes n s m ≡ some t
    unfolding remove_useless_calls image
    run-remove_useless_calls = refine R P (image P) image found.defines exec-image
