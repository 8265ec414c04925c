-- ===== src/Semantics/Fuel.antt =====
-- The fuel of `exec`.
use mathlib.Core.Option
use vnpforth.Prelude.{ℕ, zero, suc, List, [], ◌∷◌, Option, none, some, ◌≡◌, refl}
use vnpforth.Opcode.{Opcode, instruction}
use vnpforth.Semantics.{Runtime, find_label, find_define, stuck, step, exec}
use vnpforth.Semantics.Step.{below}
use vnpforth.Semantics.Simulation.{Matches, Improves, follow-image}

map_self : (o : Option (List Opcode)) → o ≡ Option.map (λ code. code) o
map_self none = refl
map_self (some code) = refl

pub Matches-refl : (P : List Opcode) → Matches P P (λ code. code)
Matches-refl P = record {
  labels = λ l. map_self (find_label l P);
  defines = λ s. map_self (find_define s P);
}

module _ {W : Type 0} (R : Runtime W) (P : List Opcode) where
  pub exec-suc : (n : ℕ) (code : List Opcode) → Improves (exec R P n code) (exec R P (suc n) code)
  unfolding exec
  exec-suc zero [] m t h = cc
  exec-suc (suc n) [] m t h = cc
  exec-suc zero (op ∷ code) m t h =
      follow-image R P P (λ c. c) (stuck R P) (exec R P zero) (λ c e m t h. cc)
        (Matches-refl P).defines (exec-suc zero code) (step R (instruction op) m)
        (λ l m' e. (Matches-refl P).labels l) t h
  exec-suc (suc n) (op ∷ code) m t h =
      follow-image R P P (λ c. c) (exec R P n) (exec R P (suc n)) (λ c e. exec-suc n c)
        (Matches-refl P).defines (exec-suc (suc n) code) (step R (instruction op) m)
        (λ l m' e. (Matches-refl P).labels l) t h

  pub below-exec : (n : ℕ) (code : List Opcode) → Improves (below R P n code) (exec R P n code)
  below-exec zero code m t h = cc
  below-exec (suc n) code m t h = exec-suc n code m t h
