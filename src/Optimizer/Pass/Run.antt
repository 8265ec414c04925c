-- ===== src/Optimizer/Pass/Run.antt =====
-- Runs over the no-ops that replace opcodes.
use vnpforth.Prelude.{ℕ, List, ◌∷◌, ◌≡◌, refl}
use vnpforth.Opcode.{Opcode}
use vnpforth.Semantics.{Machine, Runtime, step, exec}
use vnpforth.Semantics.Step.{exec-next}
use vnpforth.Optimizer.Pass.{replace_with_nop}

pub exec-replaced :
    {W : Type 0} (R : Runtime W) (P : List Opcode) (n : ℕ) (op : Opcode) (code : List Opcode)
    (m : Machine W)
    → exec R P n (replace_with_nop op ∷ code) m ≡ exec R P n code m
unfolding step
exec-replaced R P n op code m = exec-next R P n (replace_with_nop op) code m m refl
