-- ===== src/Semantics/Refine.antt =====
-- The rule by which each pass is proved: where the code at hand, opcode by opcode, does what the
-- original does, given that what a branch or a call reaches does, the whole program refines it.
use vnpforth.Prelude.{ℕ, zero, suc, List, [], ◌∷◌, some, ◌≡◌, ◌∙◌, sym}
use vnpforth.Opcode.{Label, Opcode, instruction, is_branching_opcode}
use vnpforth.Semantics.{Runtime, Refines, step, exec, run}
use vnpforth.Semantics.Layout.{Suffix}
use vnpforth.Semantics.Simulation.{
  Entry, Entry-Suffix, MatchesLabel, MatchesDefines, Matches, Improves, follow-image, define-image,
}
use vnpforth.Semantics.Step.{below, exec-cons, exec-nil, branching_of_goto}

module _ {W : Type 0} (R : Runtime W) (P Q : List Opcode) (image : List Opcode → List Opcode) where
  -- With less fuel the image does what the code does.
  abbrev pub Lower : ℕ → Type 0
  Lower n =
      (code : List Opcode) → Entry P code → Improves (below R P n code) (below R Q n (image code))

  pub exec-nil_image : (n : ℕ) (code : List Opcode) → Improves (exec R P n []) (exec R Q n code)
  exec-nil_image n code m t h = cc (exec-nil R P n m)

  -- What a pass shows of the code at hand.
  abbrev pub Whole : Type 0
  Whole =
      (n : ℕ)
      → Lower n
      → (code : List Opcode) → Suffix code P
      → Improves (exec R P n code) (exec R Q n (image code))

  module _ (defines : MatchesDefines P Q image) where
    -- An opcode that the pass keeps, and whose label, if it branches, it keeps too.
    pub exec-kept_if :
        (n : ℕ) (op : Opcode) (rest rest' : List Opcode)
        → ((l : Label) → is_branching_opcode (instruction op) ≡ some l → MatchesLabel P Q image l)
        → Lower n
        → Improves (exec R P n rest) (exec R Q n rest')
        → Improves (exec R P n (op ∷ rest)) (exec R Q n (op ∷ rest'))
    exec-kept_if n op rest rest' e lower onward m t h =
        exec-cons R Q n op rest' m
        ∙ follow-image R P Q image (below R P n) (below R Q n) lower defines onward
            (step R (instruction op) m) (λ l m' g. e l (branching_of_goto R (instruction op) m g)) t
            (sym (exec-cons R P n op rest m) ∙ h)

    module _ (whole : Whole) where
      exec-image :
          (n : ℕ) (code : List Opcode)
          → Suffix code P
          → Improves (exec R P n code) (exec R Q n (image code))
      exec-image zero code s = whole zero (λ c e m t h. cc) code s
      exec-image (suc n) code s = whole (suc n) (λ c e. exec-image n c (Entry-Suffix e)) code s

      pub refine : Refines R P Q
      unfolding run
      refine n s m t h =
          define-image R P Q image (exec R P n) (exec R Q n)
            (λ c e. exec-image n c (Entry-Suffix e)) defines s m t h

  pub exec-kept :
      Matches P Q image
      → (n : ℕ) (op : Opcode) (rest rest' : List Opcode) → Lower n
      → Improves (exec R P n rest) (exec R Q n rest')
      → Improves (exec R P n (op ∷ rest)) (exec R Q n (op ∷ rest'))
  exec-kept found n op rest rest' =
      exec-kept_if found.defines n op rest rest' (λ l e. found.labels l)
