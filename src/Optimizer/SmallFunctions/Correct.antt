-- ===== src/Optimizer/SmallFunctions/Correct.antt =====
-- Runs and `inline_small_functions` of compiler/optimize.cc.
use vnpforth.Prelude.{
  ℕ, zero, suc, true, false, List, [], ◌∷◌, ◌++◌, Option, none, some, ◌≡◌, refl, sym, ◌≢◌, ap, ◌∙◌,
  arith, Bool-cases, Option-cases, inl, inr, ◌>>=◌,
}
use vnpforth.Symbol.{Symbol}
use vnpforth.Opcode.{
  no_op, Opcode, Instruction, Label, instruction, is_branching_opcode, is_call_opcode,
  is_enddefine_opcode,
}
use vnpforth.Semantics.{
  Machine, run, Runtime, Action, next, goto, enter, leave, fault, follow, invoke, step, exec,
  find_define,
}
use vnpforth.Semantics.Step.{step-call, exec-next, exec-cons, exec-nil, below}
use vnpforth.Semantics.Fuel.{below-exec}
use vnpforth.Semantics.Simulation.{Entry, Matches, Improves}
use vnpforth.Semantics.Refine.{Lower, Whole, exec-nil_image, exec-kept, refine}
use vnpforth.Semantics.Layout.{Suffix-tail, defined, is_nodup}
use vnpforth.Optimizer.Pass.{is_executable}
use vnpforth.Optimizer.Pass.Run.{exec-replaced}
use vnpforth.Prelude.{◌+◌}
use vnpforth.Semantics.Simulation.{follow-image, Improves-bind}
use vnpforth.Semantics.Step.{branching_of_goto}
use vnpforth.Optimizer.UselessCalls.Correct.{idle_step, end_step}
use vnpforth.Optimizer.SmallFunctions.{
  find_splice, splice_of_call, inline_calls, splices_of, inline_small_functions, one_if,
}
use vnpforth.Optimizer.SmallFunctions.Candidates.{is_small}
use vnpforth.Optimizer.SmallFunctions.Splices.{body_of, find_splice-splices_of}
use vnpforth.Optimizer.SmallFunctions.Plain.{
  find_define-inline, find_label-inline, inline-none, inline-some, splice_of_call-some,
  splices_of-Plain,
}

bind_assoc :
    {A : Type 0} (o : Option A) (f g : A → Option A) → (o >>= f >>= g) ≡ (o >>= λ a. f a >>= g)
bind_assoc none f g = refl
bind_assoc (some a) f g = refl

module _ {W : Type 0} (R : Runtime W) (P : List Opcode) where
  -- What comes after an opcode that neither branches nor returns comes after what it resumes.
  follow-bind :
      (f g : Machine W → Option (Machine W)) (T : List Opcode → Machine W → Option (Machine W))
      (a : Action W)
      → ((l : Label) (m : Machine W) → a ≢ goto l m)
      → ((m : Machine W) → a ≢ leave m)
      → (follow R P f T a >>= g) ≡ follow R P (λ m. f m >>= g) T a
  unfolding follow
  follow-bind f g T (next m) b r = refl
  follow-bind f g T (goto l m) b r = absurd (b l m refl)
  follow-bind f g T (enter s m) b r = invoked (find_define s P)
    where
      invoked :
          (o : Option (List Opcode))
          → (invoke R P f T s m o >>= g) ≡ invoke R P (λ m'. f m' >>= g) T s m o
      invoked none = bind_assoc (R.run_external s m) f g
      invoked (some body) = bind_assoc (T body m) f g
  follow-bind f g T (leave m) b r = absurd (r m refl)
  follow-bind f g T fault b r = refl

  end_of_leave :
      (i : Instruction) (m : Machine W) {m' : Machine W}
      → step R i m ≡ leave m'
      → is_enddefine_opcode i ≡ true
  unfolding step is_enddefine_opcode
  end_of_leave no_op m e = cc
  end_of_leave _ m e = ground arith

  exec-end :
      (n : ℕ) (op : Opcode) (rest : List Opcode) (m : Machine W)
      → is_enddefine_opcode (instruction op) ≡ true
      → exec R P n (op ∷ rest) m ≡ some m
  unfolding follow
  exec-end n op rest m q = exec-cons R P n op rest m ∙ rw (end_step R P (instruction op) m q)

  small-tail :
      (count : ℕ) (op : Opcode) (rest : List Opcode)
      → is_small count (op ∷ rest) ≡ true
      → is_enddefine_opcode (instruction op) ≡ false
      → (is_branching_opcode (instruction op) ≡ none)
        × (is_small (count + one_if (is_executable (instruction op))) rest ≡ true)
  unfolding is_small
  small-tail count op rest h q = ground arith

  body_of-end :
      (op : Opcode) (rest : List Opcode)
      → is_enddefine_opcode (instruction op) ≡ true
      → body_of (op ∷ rest) ≡ []
  unfolding body_of
  body_of-end op rest q = ground arith

  body_of-executable :
      (op : Opcode) (rest : List Opcode)
      → is_enddefine_opcode (instruction op) ≡ false
      → is_executable (instruction op) ≡ true
      → body_of (op ∷ rest) ≡ op ∷ body_of rest
  unfolding body_of
  body_of-executable op rest q x = ground arith

  body_of-idle :
      (op : Opcode) (rest : List Opcode)
      → is_enddefine_opcode (instruction op) ≡ false
      → is_executable (instruction op) ≡ false
      → body_of (op ∷ rest) ≡ body_of rest
  unfolding body_of
  body_of-idle op rest q x = ground arith

  module _ (Q : List Opcode) (image : List Opcode → List Opcode) (found : Matches P Q image) where
    exec-straight :
        (k : ℕ) (op : Opcode) (rest code : List Opcode) (g : Machine W → Option (Machine W))
        → ((code : List Opcode)
            → Entry P code
            → Improves (exec R P k code) (exec R Q k (image code)))
        → is_branching_opcode (instruction op) ≡ none
        → is_enddefine_opcode (instruction op) ≡ false
        → Improves (λ m. exec R P k rest m >>= g) (exec R Q (suc k) code)
        → Improves (λ m. exec R P k (op ∷ rest) m >>= g) (exec R Q (suc k) (op ∷ code))
    exec-straight k op rest code g lower b q onward m t h =
        exec-cons R Q (suc k) op code m
        ∙ follow-image R P Q image (below R P k) (below R Q (suc k))
            (λ c e m₁ t₁ x. lower c e m₁ t₁ (below-exec R P k c m₁ t₁ x)) found.defines onward
            (step R (instruction op) m) (λ l m' x. found.labels l) t
            (sym (
                follow-bind (exec R P k rest) g (below R P k) (step R (instruction op) m)
                  (λ l m' x. cc (b, branching_of_goto R (instruction op) m x))
                  (λ m' x. cc (q, end_of_leave (instruction op) m x)))
              ∙ ap (λ o. o >>= g) (sym (exec-cons R P k op rest m))
              ∙ h)

    -- The body of a definition, spliced in front of code, does what the definition does and goes on.
    exec-splice :
        (k count : ℕ) (body : List Opcode)
        → ((code : List Opcode)
            → Entry P code
            → Improves (exec R P k code) (exec R Q k (image code)))
        → is_small count body ≡ true
        → (code : List Opcode)
        → Improves
            (λ m. exec R P k body m >>= exec R Q (suc k) code)
            (exec R Q (suc k) (body_of body ++ code))
    unfolding body_of
    exec-splice k count [] lower small code m t h = cc (rw (exec-nil R P k m) at h)
    exec-splice k count (op ∷ rest) lower small code m t h =
        elim (Bool-cases (is_enddefine_opcode (instruction op))) [
          | inl q ↦ rw (body_of-end op rest q) (rw (exec-end k op rest m q) at h)
          | inr q ↦
              let (b, small') = small-tail count op rest small q in
              let onward =
                exec-splice k (count + one_if (is_executable (instruction op))) rest lower small'
                  code in
              elim (Bool-cases (is_executable (instruction op))) [
                | inl x ↦ rw (body_of-executable op rest q x) (
                    exec-straight k op rest (body_of rest ++ code) (exec R Q (suc k) code) lower b q
                      onward m t h)
                | inr x ↦ rw (body_of-idle op rest q x) (
                    onward m t
                      (rw (exec-next R P k op rest m m (idle_step R P (instruction op) m x)) at h))
              ]
        ]

module _ {W : Type 0} (R : Runtime W) (P : List Opcode) (once : is_nodup (defined P) ≡ true) where
  image : List Opcode → List Opcode
  image code = (inline_calls (splices_of P) code).opcodes

  found : Matches P (image P) image
  unfolding image
  found = record {
    labels = λ l. find_label-inline (splices_of P) (splices_of-Plain P once) l P;
    defines = find_define-inline (splices_of P) (splices_of-Plain P once) P;
  }

  exec-call :
      (n : ℕ)
      → Lower R P (image P) image n
      → (op : Opcode) (rest ops : List Opcode) (s : Symbol)
      → is_call_opcode (instruction op) ≡ some s
      → find_splice s (splices_of P) ≡ some ops
      → Improves (exec R P n rest) (exec R (image P) n (image rest))
      → (m t : Machine W) → exec R P n (op ∷ rest) m ≡ some t
      → exec R (image P) n (ops ++ image rest) m ≡ some t
  unfolding follow
  exec-call n lower op rest ops s c f onward m t h =
      let (body, at, small, e) = find_splice-splices_of s P ops once f in
      rw e (
        called n lower onward body at small
          (rw (step-call R (instruction op) m c, at) at (sym (exec-cons R P n op rest m) ∙ h)))
    where
      called :
          (n : ℕ)
          → Lower R P (image P) image n
          → Improves (exec R P n rest) (exec R (image P) n (image rest))
          → (body : List Opcode) → find_define s P ≡ some body
          → is_small 0 body ≡ true
          → (below R P n body m >>= exec R P n rest) ≡ some t
          → exec R (image P) n (body_of body ++ image rest) m ≡ some t
      called zero lower onward body at small h = cc
      called (suc k) lower onward body at small h =
          exec-splice R P (image P) image found k 0 body lower small (image rest) m t
            (Improves-bind (exec R P k body m) (λ a p. p) onward t h)

  exec-image : Whole R P (image P) image
  unfolding image inline_calls
  exec-image n lower [] s m t h = exec-nil_image R P (image P) image n [] m t h
  exec-image n lower (op ∷ rest) s m t h =
      elim (Option-cases (splice_of_call (splices_of P) (is_call_opcode (instruction op)))) [
        | inl e ↦ rw (inline-none (splices_of P) op rest e) (
            exec-kept R P (image P) image found n op rest (image rest) lower
              (exec-image n lower rest (Suffix-tail s)) m t h)
        | inr (ops, e) ↦
            let (d, c, f) =
              splice_of_call-some (splices_of P) (is_call_opcode (instruction op)) e in
            rw (inline-some (splices_of P) op rest e) (
              exec-replaced R (image P) n op (ops ++ image rest) m
              ∙ exec-call n lower op rest ops d c f (exec-image n lower rest (Suffix-tail s)) m t h)
      ]

  -- Inlining small functions keeps every run of a program that defines a symbol once, in the
  -- meaning of the intermediate code: a run of a definition that ends in a machine, within some
  -- number of nested branches and calls, is a run of the optimized program that ends in the same
  -- machine within that number.
  pub run-inline_small_functions :
      (n : ℕ) (s : Symbol) (m t : Machine W)
      → run R P n s m ≡ some t
      → run R (inline_small_functions P).opcodes n s m ≡ some t
  unfolding inline_small_functions image
  run-inline_small_functions = refine R P (image P) image found.defines exec-image
