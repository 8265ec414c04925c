-- ===== src/Optimizer/UselessCalls/Found.antt =====
-- What the first loop of `remove_useless_calls` of compiler/optimize.cc finds.
use mathlib.Core.Path.{subst}
use vnpforth.Prelude.{
  Bool, true, false, not, ◌&&◌, ◌||◌, List, [], ◌∷◌, some, ◌≡◌, arith, Bool-cases, Option-cases,
  inl, inr, ◌⊎◌,
}
use vnpforth.Symbol.{Symbol, same_symbol}
use vnpforth.Opcode.{Opcode, instruction, is_define_opcode, is_enddefine_opcode}
use vnpforth.Semantics.{find_define}
use vnpforth.Semantics.Layout.{Suffix, here, there, defined, is_nodup}
use vnpforth.Semantics.Unique.{find_define-suffix}
use vnpforth.Optimizer.Pass.{holds, points_to, is_executable}
use vnpforth.Optimizer.UselessCalls.{
  EmptyScan, begin_empty_scan, end_empty_scan, go_on_empty_scan, step_empty_scan, no_scan,
  find_empty_functions,
}

-- Labels and no-ops, and then the definition's end.
unfoldable pub is_empty_body : List Opcode → Bool
is_empty_body [] = false
is_empty_body (op ∷ rest) =
    is_enddefine_opcode (instruction op)
    || not (is_executable (instruction op)) && is_empty_body rest

-- The code of a definition of the symbol, with an empty body.
pub record EmptyAt (s : Symbol) (code : List Opcode) : Type 0 where
  pub symbol : Symbol
  pub definer : Opcode
  pub body : List Opcode
  pub defines : is_define_opcode (instruction definer) ≡ some symbol
  pub same : same_symbol symbol s ≡ true
  pub is_empty : is_empty_body body ≡ true
  pub stands : Suffix (definer ∷ body) code

EmptyAt-there :
    {s : Symbol} {op : Opcode} {code : List Opcode} → EmptyAt s code → EmptyAt s (op ∷ code)
EmptyAt-there e = record {
  symbol = e.symbol;
  definer = e.definer;
  body = e.body;
  defines = e.defines;
  same = e.same;
  is_empty = e.is_empty;
  stands = there e.stands;
}

-- How a symbol gets into the set: it was there, or the definition at hand is empty so far and to
-- its end, or an empty definition follows.
abbrev Found : Symbol → List Opcode → EmptyScan → Type 0
Found s code v =
    (holds v.empty_functions s ≡ true)
    ⊎ (points_to v.current_definition s ≡ true)
      × (v.has_executable_opcodes ≡ false)
      × (is_empty_body code ≡ true)
    ⊎ EmptyAt s code

module _ (s : Symbol) (op : Opcode) (rest : List Opcode) (v : EmptyScan) where
  Found-begin :
      (d : Symbol)
      → is_define_opcode (instruction op) ≡ some d
      → Found s rest (begin_empty_scan d v)
      → Found s (op ∷ rest) v
  Found-begin d e (inl x) = inl x
  Found-begin d e (inr (inl (p, _, b))) = inr (
      inr (record {
        symbol = d;
        definer = op;
        body = rest;
        defines = e;
        same = p;
        is_empty = b;
        stands = here;
      }))
  Found-begin d e (inr (inr x)) = inr (inr (EmptyAt-there x))

  Found-end :
      is_enddefine_opcode (instruction op) ≡ true
      → Found s rest (end_empty_scan v)
      → Found s (op ∷ rest) v
  unfolding is_empty_body
  Found-end q (inl x) = elim (Bool-cases (v.has_executable_opcodes)) [
    | inl t ↦ inl (rw t at x)
    | inr f ↦ elim (Bool-cases (points_to v.current_definition s)) [
      | inl p ↦ inr (inl (p, f, rw q))
      | inr p ↦ inl (rw (f, p) at x)
    ]
  ]
  Found-end q (inr (inl (p, _, _))) = cc
  Found-end q (inr (inr x)) = inr (inr (EmptyAt-there x))

  Found-go_on :
      Found s rest (go_on_empty_scan (is_executable (instruction op)) v) → Found s (op ∷ rest) v
  unfolding is_empty_body
  Found-go_on (inl x) = inl (ground arith)
  Found-go_on (inr (inl (p, f, b))) = inr (inl (ground arith, ground arith, ground arith))
  Found-go_on (inr (inr x)) = inr (inr (EmptyAt-there x))

  Found-step : Found s rest (step_empty_scan (instruction op) v) → Found s (op ∷ rest) v
  unfolding step_empty_scan
  Found-step f = elim (Option-cases (is_define_opcode (instruction op))) [
    | inr (d, e) ↦
        let w : step_empty_scan (instruction op) v ≡ begin_empty_scan d v = ground arith in
        Found-begin d e (subst (Found s rest) w f)
    | inl e ↦ elim (Bool-cases (is_enddefine_opcode (instruction op))) [
      | inl q ↦
          let w : step_empty_scan (instruction op) v ≡ end_empty_scan v = ground arith in
          Found-end q (subst (Found s rest) w f)
      | inr q ↦
          let w : step_empty_scan (instruction op) v
              ≡ go_on_empty_scan (is_executable (instruction op)) v =
            ground arith in
          Found-go_on (subst (Found s rest) w f)
    ]
  ]

find_empty_functions-Found :
    (s : Symbol) (code : List Opcode) (v : EmptyScan)
    → holds (find_empty_functions code v) s ≡ true
    → Found s code v
unfolding find_empty_functions
find_empty_functions-Found s [] v h = inl h
find_empty_functions-Found s (op ∷ rest) v h =
    Found-step s op rest v
      (find_empty_functions-Found s rest (step_empty_scan (instruction op) v) h)

-- A symbol of the set is defined by the program, with an empty body.
pub find_empty_functions-body :
    (s : Symbol) (P : List Opcode)
    → is_nodup (defined P) ≡ true
    → holds (find_empty_functions P no_scan) s ≡ true
    → (body : List Opcode) × (find_define s P ≡ some body) × (is_empty_body body ≡ true)
find_empty_functions-body s P once h = elim (find_empty_functions-Found s P no_scan h) [
  | inl x ↦ cc
  | inr (inl (p, f, b)) ↦ cc
  | inr (inr e) ↦ (e.body, find_define-suffix e.symbol s e.stands e.defines e.same once, e.is_empty)
]
