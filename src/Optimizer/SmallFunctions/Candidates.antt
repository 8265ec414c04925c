-- ===== src/Optimizer/SmallFunctions/Candidates.antt =====
-- The candidates that `inline_small_functions` of compiler/optimize.cc finds.
use mathlib.Core.Path.{subst}
use vnpforth.Prelude.{
  ℕ, Bool, true, false, not, ◌&&◌, ◌||◌, List, [], ◌∷◌, none, some, ◌≡◌, arith, Bool-cases,
  Option-cases, inl, inr, ◌⊎◌,
}
use vnpforth.Symbol.{Symbol, same_symbol}
use vnpforth.Opcode.{Opcode, instruction, is_define_opcode, is_enddefine_opcode}
use vnpforth.Semantics.Layout.{Suffix, here, there}
use vnpforth.Optimizer.Pass.{holds, points_to, is_executable, is_some}
use vnpforth.Optimizer.SmallFunctions.{
  CandidateScan, begin_candidate, end_candidate, go_on_candidate, step_candidate, find_candidates,
  no_candidates, disqualifies, one_if, small_function_opcode_limit,
}
use vnpforth.Prelude.{ltb, ◌+◌}

-- Up to the definition's end there is no branch and no assembly code, and with the `count` opcodes
-- before it no more executable ones than the limit.
unfoldable pub is_small : ℕ → List Opcode → Bool
unfolding disqualifies is_executable
is_small count [] = false
is_small count (op ∷ rest) =
    is_enddefine_opcode (instruction op)
    || not (is_some (is_define_opcode (instruction op)))
      && not (disqualifies (instruction op))
      && not (ltb small_function_opcode_limit (count + one_if (is_executable (instruction op))))
      && is_small (count + one_if (is_executable (instruction op))) rest

-- The code of a definition of the symbol, with a small body.
pub record SmallAt (s : Symbol) (code : List Opcode) : Type 0 where
  pub symbol : Symbol
  pub definer : Opcode
  pub body : List Opcode
  pub defines : is_define_opcode (instruction definer) ≡ some symbol
  pub same : same_symbol symbol s ≡ true
  pub small : is_small 0 body ≡ true
  pub stands : Suffix (definer ∷ body) code

SmallAt-there :
    {s : Symbol} {op : Opcode} {code : List Opcode} → SmallAt s code → SmallAt s (op ∷ code)
SmallAt-there e = record {
  symbol = e.symbol;
  definer = e.definer;
  body = e.body;
  defines = e.defines;
  same = e.same;
  small = e.small;
  stands = there e.stands;
}

abbrev Found : Symbol → List Opcode → CandidateScan → Type 0
Found s code v =
    (holds v.inline_candidates s ≡ true)
    ⊎ (points_to v.current_definition s ≡ true)
      × (v.is_not_candidate ≡ false)
      × (is_small v.executable_opcodes code ≡ true)
    ⊎ SmallAt s code

module _ (s : Symbol) (op : Opcode) (rest : List Opcode) (v : CandidateScan) where
  Found-begin :
      (d : Symbol)
      → is_define_opcode (instruction op) ≡ some d
      → Found s rest (begin_candidate d v)
      → Found s (op ∷ rest) v
  Found-begin d e (inl x) = inl x
  Found-begin d e (inr (inl (p, _, b))) = inr (
      inr (record {
        symbol = d;
        definer = op;
        body = rest;
        defines = e;
        same = p;
        small = b;
        stands = here;
      }))
  Found-begin d e (inr (inr x)) = inr (inr (SmallAt-there x))

  Found-end :
      is_enddefine_opcode (instruction op) ≡ true
      → Found s rest (end_candidate v)
      → Found s (op ∷ rest) v
  unfolding is_small
  Found-end q (inl x) = elim (Bool-cases (v.is_not_candidate)) [
    | inl t ↦ inl (rw t at x)
    | inr f ↦ elim (Bool-cases (points_to v.current_definition s)) [
      | inl p ↦ inr (inl (p, f, rw q))
      | inr p ↦ inl (rw (f, p) at x)
    ]
  ]
  Found-end q (inr (inl (p, _, _))) = cc
  Found-end q (inr (inr x)) = inr (inr (SmallAt-there x))

  Found-go_on :
      is_define_opcode (instruction op) ≡ none
      → Found s rest (go_on_candidate (instruction op) v)
      → Found s (op ∷ rest) v
  unfolding is_small
  Found-go_on e (inl x) = inl (ground arith)
  Found-go_on e (inr (inl (p, f, b))) = inr (inl (ground arith, ground arith, ground arith))
  Found-go_on e (inr (inr x)) = inr (inr (SmallAt-there x))

  Found-step : Found s rest (step_candidate (instruction op) v) → Found s (op ∷ rest) v
  unfolding step_candidate
  Found-step f = elim (Option-cases (is_define_opcode (instruction op))) [
    | inr (d, e) ↦
        let w : step_candidate (instruction op) v ≡ begin_candidate d v = ground arith in
        Found-begin d e (subst (Found s rest) w f)
    | inl e ↦ elim (Bool-cases (is_enddefine_opcode (instruction op))) [
      | inl q ↦
          let w : step_candidate (instruction op) v ≡ end_candidate v = ground arith in
          Found-end q (subst (Found s rest) w f)
      | inr q ↦
          let w : step_candidate (instruction op) v ≡ go_on_candidate (instruction op) v =
            ground arith in
          Found-go_on e (subst (Found s rest) w f)
    ]
  ]

find_candidates-Found :
    (s : Symbol) (code : List Opcode) (v : CandidateScan)
    → holds (find_candidates code v) s ≡ true
    → Found s code v
unfolding find_candidates
find_candidates-Found s [] v h = inl h
find_candidates-Found s (op ∷ rest) v h =
    Found-step s op rest v (find_candidates-Found s rest (step_candidate (instruction op) v) h)

pub find_candidates-small :
    (s : Symbol) (P : List Opcode) → holds (find_candidates P no_candidates) s ≡ true → SmallAt s P
find_candidates-small s P h = elim (find_candidates-Found s P no_candidates h) [
  | inl x ↦ absurd (cc)
  | inr (inl (p, f, b)) ↦ absurd (cc)
  | inr (inr e) ↦ e
]
