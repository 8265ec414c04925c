-- ===== src/Optimizer/Driver/Correct.antt =====
-- The passes of `optimize_code` of compiler/optimize.cc, one after another.
use vnpforth.Prelude.{
  ℕ, zero, suc, true, List, none, some, ◌>>=◌, ◌≡◌, ◌∙◌, ◌==◌, sym, Option-cases, Bool-cases, inl,
  inr, arith, if◌then◌else◌,
}
use mathlib.Core.Path.{subst}
use vnpforth.Opcode.{Opcode}
use vnpforth.Symbol.{Symbol}
use vnpforth.Semantics.{Machine, run, Runtime}
use vnpforth.Optimizer.Pass.{Pass}
use vnpforth.Optimizer.Booleans.{is_boolean}
use vnpforth.Optimizer.Booleans.Correct.{RunsBooleans, with_boolean}
use vnpforth.Optimizer.Relocate.{relocate_suboptimal_labels}
use vnpforth.Optimizer.Labels.{remove_unnecessary_labels}
use vnpforth.Optimizer.Driver.{
  iterations_limit, after, first_passes, optimize_round, Optimized, optimize_loop, optimize_code,
}
use vnpforth.Optimizer.Driver.Ends.{optimize_round_total, optimize_loop-stop, optimize_loop-more}
use vnpforth.Optimizer.Driver.Improved.{
  IsReady, Improved, Improved-then, Improved-remove_unreachable_code,
  Improved-remove_unnecessary_jumps, Improved-remove_useless_calls, Improved-inline_booleans,
  Improved-inline_small_functions, Improved-replace_adjacent_push_pop_pairs,
  Improved-remove_unnecessary_labels, Improved-relocate_suboptimal_labels,
}

module _ {W : Type 0} (R : Runtime W) (library : RunsBooleans R) where
  Improved-first_passes :
      (P : List Opcode) → IsReady P → Improved R library P (first_passes P).opcodes
  Improved-first_passes P r =
      Improved-then R library _ _ _ (Improved-remove_unreachable_code R library P r) (λ ra.
        Improved-then R library _ _ _ (Improved-remove_unnecessary_jumps R library _ ra) (λ rb.
          Improved-then R library _ _ _ (Improved-remove_useless_calls R library _ rb) (λ rc.
            Improved-then R library _ _ _ (Improved-inline_booleans R library _ rc) (λ rd.
              Improved-then R library _ _ _ (Improved-inline_small_functions R library _ rd)
                (λ re. Improved-replace_adjacent_push_pop_pairs R library _ re)))))

  Improved-optimize_round :
      (P : List Opcode) (p : Pass)
      → optimize_round P ≡ some p
      → IsReady P
      → Improved R library P p.opcodes
  unfolding optimize_round
  Improved-optimize_round P p e r =
      let f = first_passes P in
      elim (Option-cases (relocate_suboptimal_labels f.opcodes)) [
        | inl a ↦ absurd (cc (rw (a, ◌>>=◌) at e))
        | inr (g, a) ↦
            let h = after f g in
            let e' : some (after h (remove_unnecessary_labels h.opcodes)) ≡ some p =
              rw (a, ◌>>=◌) at e in
            let same : after h (remove_unnecessary_labels h.opcodes) ≡ p = cc in
            subst (λ (x : Pass). Improved R library P x.opcodes) same
              (Improved-then R library _ _ _ (Improved-first_passes P r) (λ rf.
                Improved-then R library _ _ _
                  (Improved-relocate_suboptimal_labels R library f.opcodes g a rf)
                  (λ rg. Improved-remove_unnecessary_labels R library g.opcodes rg)))
      ]

  Improved-optimize_loop :
      (left : ℕ) (P : List Opcode) (o : Optimized)
      → optimize_loop left P ≡ some o
      → IsReady P
      → Improved R library P o.opcodes
  unfolding optimize_loop
  Improved-optimize_loop zero P o e r =
      let same : record { opcodes = P; limit_reached = true } ≡ o = cc in
      subst (λ (x : Optimized). Improved R library P x.opcodes) same ((λ n s m t h. h), r)
  Improved-optimize_loop (suc left) P o e r =
      let (p, q) = optimize_round_total P in
      let first = Improved-optimize_round P p q r in
      elim (Bool-cases (p.optimizations == 0)) [
        | inl z ↦
            let is : some (record { opcodes = p.opcodes; limit_reached = left == 0 }) ≡ some o =
              sym (optimize_loop-stop left P p q z) ∙ e in
            let same : record { opcodes = p.opcodes; limit_reached = left == 0 } ≡ o = cc in
            subst (λ (x : Optimized). Improved R library P x.opcodes) same first
        | inr z ↦
            Improved-then R library _ _ _ first
              (Improved-optimize_loop left p.opcodes o (sym (optimize_loop-more left P p q z) ∙ e))
      ]

  Improved-optimize_code :
      (P : List Opcode) (o : Optimized)
      → optimize_code P ≡ some o
      → IsReady P
      → Improved R library P o.opcodes
  unfolding optimize_code
  Improved-optimize_code P o = Improved-optimize_loop iterations_limit P o

  -- The first six passes of a round together keep every run of a laid-out program, where the
  -- runtime library runs TRUE and FALSE and no call of such a name is a call of a definition of
  -- the program, in the meaning of the intermediate code: a run of a definition that ends in a
  -- machine, within some number of nested branches and calls, is a run of the optimized program
  -- that ends in the same machine within that number.
  pub run-first_passes :
      (P : List Opcode)
      → IsReady P
      → (n : ℕ) (s : Symbol) (m t : Machine W) → run R P n s m ≡ some t
      → run R (first_passes P).opcodes n s m ≡ some t
  run-first_passes P r = (Improved-first_passes P r).0

  -- optimize_code, all its rounds and every pass of them, keeps every run of a laid-out program,
  -- where the runtime library runs TRUE and FALSE and no call of such a name is a call of a
  -- definition of the program, in the meaning of the intermediate code: a run of a definition that
  -- ends in a machine, within some number of nested branches and calls, is a run of the optimized
  -- program that ends in the same machine within that number.
  pub run-optimize_code :
      (P : List Opcode) (o : Optimized)
      → optimize_code P ≡ some o
      → IsReady P
      → (n : ℕ) (s : Symbol) (m t : Machine W) → run R P n s m ≡ some t
      → run R o.opcodes n s m ≡ some t
  run-optimize_code P o e r = (Improved-optimize_code P o e r).0

-- A runtime library that has TRUE and FALSE alone.
abbrev booleans_alone : Runtime Unit
booleans_alone = record {
  run_external = λ s m. if is_boolean (some s) then some (with_boolean s m) else none;
  run_assembly = λ t m. none;
  symbol_address = λ s. s.id;
  data_address = λ d. d;
}

booleans_alone-RunsBooleans : RunsBooleans booleans_alone
booleans_alone-RunsBooleans s b m = ground arith

-- optimize_code keeps a program laid out, with its definitions properly nested and its labels and
-- definitions standing once, and leaves no call of TRUE or FALSE that is a call of a definition of
-- the program, where there was none.
pub optimize_code-IsReady :
    (P : List Opcode) (o : Optimized) → optimize_code P ≡ some o → IsReady P → IsReady o.opcodes
optimize_code-IsReady P o e r =
    (Improved-optimize_code booleans_alone booleans_alone-RunsBooleans P o e r).1
