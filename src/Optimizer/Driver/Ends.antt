-- ===== src/Optimizer/Driver/Ends.antt =====
-- How the loop of `optimize_code` of compiler/optimize.cc ends.
use vnpforth.Prelude.{
  ℕ, zero, suc, true, false, List, some, ◌≡◌, ◌==◌, refl, arith, Bool-cases, ◌⊎◌, inl, inr, ◌∙◌, ap,
  sym, ◌>>=◌, >>=-eq-some, ==_iff,
}
use mathlib.Core.Path.{subst}
use vnpforth.Opcode.{Opcode}
use vnpforth.Optimizer.Pass.{Pass}
use vnpforth.Optimizer.Unreachable.{remove_unreachable_code}
use vnpforth.Optimizer.Jumps.{remove_unnecessary_jumps}
use vnpforth.Optimizer.UselessCalls.{remove_useless_calls}
use vnpforth.Optimizer.Booleans.{inline_booleans}
use vnpforth.Optimizer.SmallFunctions.{inline_small_functions}
use vnpforth.Optimizer.PushPop.{replace_adjacent_push_pop_pairs}
use vnpforth.Optimizer.Relocate.{relocate_suboptimal_labels}
use vnpforth.Optimizer.Relocate.Total.{relocate_suboptimal_labels_total}
use vnpforth.Optimizer.Labels.{remove_unnecessary_labels}
use vnpforth.Optimizer.Driver.{
  after, first_passes, optimize_round, Optimized, optimize_loop, optimize_code, iterations_limit,
}
use vnpforth.Optimizer.Driver.Quiet.{
  IsQuiet, remove_unreachable_code-IsQuiet, remove_unnecessary_jumps-IsQuiet,
  remove_useless_calls-IsQuiet, inline_booleans-IsQuiet, inline_small_functions-IsQuiet,
  replace_adjacent_push_pop_pairs-IsQuiet, relocate_suboptimal_labels-quiet,
  remove_unnecessary_labels-IsQuiet,
}

-- A pass after others that counts nothing, in all, left the table as it was, and so did they.
after-quiet :
    (f : List Opcode → Pass)
    → IsQuiet f
    → (p : Pass) (P : List Opcode) → (p.optimizations ≡ 0 → p.opcodes ≡ P)
    → (after p (f p.opcodes)).optimizations ≡ 0
    → (after p (f p.opcodes)).opcodes ≡ P
after-quiet f quiet p P before h = quiet p.opcodes (omega arith) ∙ before (omega arith)

first_passes-IsQuiet : IsQuiet first_passes
first_passes-IsQuiet P =
    let a = remove_unreachable_code P in
    let b = after a (remove_unnecessary_jumps a.opcodes) in
    let c = after b (remove_useless_calls b.opcodes) in
    let d = after c (inline_booleans c.opcodes) in
    let e = after d (inline_small_functions d.opcodes) in
    after-quiet replace_adjacent_push_pop_pairs replace_adjacent_push_pop_pairs-IsQuiet e P (
      after-quiet inline_small_functions inline_small_functions-IsQuiet d P (
        after-quiet inline_booleans inline_booleans-IsQuiet c P (
          after-quiet remove_useless_calls remove_useless_calls-IsQuiet b P (
            after-quiet remove_unnecessary_jumps remove_unnecessary_jumps-IsQuiet a P
              (remove_unreachable_code-IsQuiet P)))))

optimize_round-quiet :
    (P : List Opcode) (p : Pass) → optimize_round P ≡ some p → p.optimizations ≡ 0 → p.opcodes ≡ P
unfolding optimize_round
optimize_round-quiet P p h z =
    let f = first_passes P in
    let (g, e, w) =
      >>=-eq-some (relocate_suboptimal_labels f.opcodes)
        (λ g. let k = after f g in some (after k (remove_unnecessary_labels k.opcodes))) h in
    let k = after f g in
    let v : after k (remove_unnecessary_labels k.opcodes) ≡ p = cc in
    let z' : (after k (remove_unnecessary_labels k.opcodes)).optimizations ≡ 0 =
      ap (λ (q : Pass). q.optimizations) v ∙ z in
    sym (ap (λ (q : Pass). q.opcodes) v)
    ∙ after-quiet remove_unnecessary_labels remove_unnecessary_labels-IsQuiet k P
        (λ y.
          relocate_suboptimal_labels-quiet f.opcodes g e (omega arith)
          ∙ first_passes-IsQuiet P (omega arith))
        z'

pub optimize_round_total : (P : List Opcode) → (p : Pass) × (optimize_round P ≡ some p)
unfolding optimize_round
optimize_round_total P =
    let f = first_passes P in
    let (g, e) = relocate_suboptimal_labels_total f.opcodes in
    let k = after f g in (after k (remove_unnecessary_labels k.opcodes), rw e)

-- A table at which a round counts nothing.
abbrev pub IsSettled : List Opcode → Type 0
IsSettled P = (p : Pass) × (optimize_round P ≡ some p) × (p.optimizations ≡ 0) × (p.opcodes ≡ P)

-- A round that counts nothing stops the loop.
pub optimize_loop-stop :
    (left : ℕ) (P : List Opcode) (p : Pass)
    → optimize_round P ≡ some p
    → (p.optimizations == 0) ≡ true
    → optimize_loop (suc left) P ≡ some (record { opcodes = p.opcodes; limit_reached = left == 0 })
unfolding optimize_loop
optimize_loop-stop left P p e q = rw (e, ◌>>=◌, q)

pub optimize_loop-more :
    (left : ℕ) (P : List Opcode) (p : Pass)
    → optimize_round P ≡ some p
    → (p.optimizations == 0) ≡ false
    → optimize_loop (suc left) P ≡ optimize_loop left p.opcodes
unfolding optimize_loop
optimize_loop-more left P p e q = rw (e, ◌>>=◌, q)

optimize_loop_total :
    (left : ℕ) (P : List Opcode) → (o : Optimized) × (optimize_loop left P ≡ some o)
unfolding optimize_loop
optimize_loop_total zero P = (record { opcodes = P; limit_reached = true }, refl)
optimize_loop_total (suc left) P =
    let (p, e) = optimize_round_total P in
    elim (Bool-cases (p.optimizations == 0)) [
      | inl q ↦ (
        record { opcodes = p.opcodes; limit_reached = left == 0 },
        optimize_loop-stop left P p e q,
      )
      | inr q ↦
          let (o, e') = optimize_loop_total left p.opcodes in
          (o, optimize_loop-more left P p e q ∙ e')
    ]

optimize_loop-IsSettled :
    (left : ℕ) (P : List Opcode) (o : Optimized)
    → optimize_loop left P ≡ some o
    → o.limit_reached ≡ false
    → IsSettled o.opcodes
unfolding optimize_loop
optimize_loop-IsSettled zero P o h w = ground arith
optimize_loop-IsSettled (suc left) P o h w =
    let (p, e) = optimize_round_total P in
    elim (Bool-cases (p.optimizations == 0)) [
      | inl q ↦
          let z : p.optimizations ≡ 0 = (==_iff p.optimizations 0).0 q in
          let same : p.opcodes ≡ P = optimize_round-quiet P p e z in
          let o_is : some (record { opcodes = p.opcodes; limit_reached = left == 0 }) ≡ some o =
            sym (optimize_loop-stop left P p e q) ∙ h in
          let ops : p.opcodes ≡ o.opcodes = cc in
          subst (λ X. IsSettled X) (sym same ∙ ops) (p, e, z, same)
      | inr q ↦
          optimize_loop-IsSettled left p.opcodes o (sym (optimize_loop-more left P p e q) ∙ h) w
    ]

-- optimize_code ends, at any table, and either all its rounds were used up, or one more round
-- counts no optimization and leaves the table as it is.
pub optimize_code-IsSettled :
    (P : List Opcode)
    → (o : Optimized) × (optimize_code P ≡ some o)
      × ((o.limit_reached ≡ true) ⊎ IsSettled o.opcodes)
unfolding optimize_code
optimize_code-IsSettled P =
    let (o, e) = optimize_loop_total iterations_limit P in
    (
      o,
      e,
      elim (Bool-cases o.limit_reached) [
        | inl w ↦ inl w
        | inr w ↦ inr (optimize_loop-IsSettled iterations_limit P o e w)
      ],
    )
