-- ===== src/Semantics/Simulation.antt =====
-- When a transformed program finds the image of the code that the original finds, one step of it
-- does what the original's step does. Each pass of the optimizer is proved by this rule.
use mathlib.Core.Option
use vnpforth.Prelude.{List, Option, none, some, ◌≡◌, ◌>>=◌, refl}
use vnpforth.Symbol.{Symbol}
use vnpforth.Semantics.Layout.{Suffix, Suffix-find_label, Suffix-find_define}
use vnpforth.Opcode.{Label, Opcode}
use vnpforth.Semantics.{
  Machine, Runtime, Action, next, goto, enter, leave, fault, find_label, find_define, invoke,
  arrive, follow,
}

-- The code that a branch or a call can reach.
pub data Entry (P : List Opcode) (code : List Opcode) : Type 0 where
  at_label : (l : Label) → find_label l P ≡ some code → Entry P code
  at_define : (s : Symbol) → find_define s P ≡ some code → Entry P code

-- `image` carries the code of `P` to the code of `Q`: at one label, at every definition, and at
-- every label too.
abbrev pub MatchesLabel : List Opcode → List Opcode → (List Opcode → List Opcode) → Label → Type 0
MatchesLabel P Q image l = find_label l Q ≡ Option.map image (find_label l P)

abbrev pub MatchesDefines : List Opcode → List Opcode → (List Opcode → List Opcode) → Type 0
MatchesDefines P Q image = (s : Symbol) → find_define s Q ≡ Option.map image (find_define s P)

pub record Matches (P Q : List Opcode) (image : List Opcode → List Opcode) : Type 0 where
  pub labels : (l : Label) → MatchesLabel P Q image l
  pub defines : MatchesDefines P Q image

module _ {W : Type 0} where
  -- Where the first gives a machine the second gives the same one.
  abbrev pub Improves : (Machine W → Option (Machine W)) → (Machine W → Option (Machine W)) → Type 0
  Improves f g = (m t : Machine W) → f m ≡ some t → g m ≡ some t

  pub Improves-bind :
      (o : Option (Machine W)) {p : Option (Machine W)} {f g : Machine W → Option (Machine W)}
      → ((t : Machine W) → o ≡ some t → p ≡ some t)
      → Improves f g
      → (t : Machine W) → (o >>= f) ≡ some t
      → (p >>= g) ≡ some t
  Improves-bind none hp hf t h = cc
  Improves-bind (some a) {p} {f} {g} hp hf t h = rw (hp a refl) (hf a t h)

module _ {W : Type 0} (R : Runtime W) (P Q : List Opcode) (image : List Opcode → List Opcode) where
  module _ (transfer transfer' : List Opcode → Machine W → Option (Machine W))
      (away : (code : List Opcode)
        → Entry P code
        → Improves (transfer code) (transfer' (image code)))
      (defines : MatchesDefines P Q image) where
    arrive-image :
        (o : Option (List Opcode))
        → ((code : List Opcode) → o ≡ some code → Entry P code)
        → (m t : Machine W) → arrive R P transfer m o ≡ some t
        → arrive R Q transfer' m (Option.map image o) ≡ some t
    arrive-image none e m t h = cc
    arrive-image (some code) e m t h = away code (e code refl) m t h

    -- A branch, whatever follows it.
    pub goto-image :
        (l : Label)
        → MatchesLabel P Q image l
        → (m t : Machine W) → arrive R P transfer m (find_label l P) ≡ some t
        → arrive R Q transfer' m (find_label l Q) ≡ some t
    goto-image l e m t h = rw e (arrive-image (find_label l P) (λ code p. at_label l p) m t h)

    -- The start of a definition.
    pub define-image :
        (s : Symbol) (m t : Machine W)
        → arrive R P transfer m (find_define s P) ≡ some t
        → arrive R Q transfer' m (find_define s Q) ≡ some t
    define-image s m t h =
        rw (defines s) (arrive-image (find_define s P) (λ code p. at_define s p) m t h)

    module _ {resume resume' : Machine W → Option (Machine W)}
        (onward : Improves resume resume') where
      invoke-image :
          (s : Symbol) (o : Option (List Opcode))
          → ((code : List Opcode) → o ≡ some code → Entry P code)
          → (m t : Machine W) → invoke R P resume transfer s m o ≡ some t
          → invoke R Q resume' transfer' s m (Option.map image o) ≡ some t
      invoke-image s none e m t h = Improves-bind (R.run_external s m) (λ t p. p) onward t h
      invoke-image s (some code) e m t h =
          Improves-bind (transfer code m) (away code (e code refl) m) onward t h

      pub follow-image :
          (a : Action W)
          → ((l : Label) (m : Machine W) → a ≡ goto l m → MatchesLabel P Q image l)
          → (t : Machine W) → follow R P resume transfer a ≡ some t
          → follow R Q resume' transfer' a ≡ some t
      unfolding follow
      follow-image (next m) e t h = onward m t h
      follow-image (goto l m) e t h = goto-image l (e l m refl) m t h
      follow-image (enter s m) e t h =
          rw (defines s) (invoke-image s (find_define s P) (λ code p. at_define s p) m t h)
      follow-image (leave m) e t h = h
      follow-image fault e t h = h

-- What a branch or a call reaches is an end of the program.
pub Entry-Suffix : {P code : List Opcode} → Entry P code → Suffix code P
Entry-Suffix {P} (at_label l e) = Suffix-find_label l P e
Entry-Suffix {P} (at_define s e) = Suffix-find_define s P e
