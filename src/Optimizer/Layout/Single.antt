-- ===== src/Optimizer/Layout/Single.antt =====
-- The shape of a program around the passes of compiler/optimize.cc that look at one opcode at a
-- time.
use vnpforth.Prelude.{
  Bool, true, false, List, [], ◌∷◌, Option, none, some, ◌≡◌, refl, sym, ◌∙◌, arith, Bool-cases, inl,
  inr,
}
use vnpforth.Opcode.{label, Opcode, Instruction, instruction}
use vnpforth.Semantics.Layout.{labels, defined, is_nested}
use vnpforth.Optimizer.Pass.{SymbolSet}
use vnpforth.Semantics.Layout.{nests, inside_after}
use vnpforth.Optimizer.Layout.{SameLayout}
use vnpforth.Optimizer.Unreachable.{scan_unreachable, remove_unreachable_code}
use vnpforth.Optimizer.Jumps.{remove_unnecessary_jumps, jumps_to_next, next_non_noop}
use vnpforth.Optimizer.UselessCalls.{
  remove_calls, remove_useless_calls, find_empty_functions, no_scan,
}
use vnpforth.Optimizer.Booleans.{inline_booleans}

-- remove_unreachable_code
nested-scan :
    (u inside : Bool) (P : List Opcode)
    → (u ≡ true → inside ≡ true)
    → is_nested inside P ≡ true
    → is_nested inside (scan_unreachable u P).opcodes ≡ true
unfolding is_nested scan_unreachable
nested-scan true inside [] hu h = h
nested-scan false inside [] hu h = h
nested-scan true true (op ∷ rest) hu h =
    ground
      (arith, nested-scan true true rest, nested-scan false true rest, nested-scan false false rest)
nested-scan true false (op ∷ rest) hu h = cc (hu refl)
nested-scan false true (op ∷ rest) hu h =
    ground
      (arith, nested-scan true true rest, nested-scan false true rest, nested-scan false false rest)
nested-scan false false (op ∷ rest) hu h = ground (arith, nested-scan false true rest)

labels-scan : (u : Bool) (P : List Opcode) → labels (scan_unreachable u P).opcodes ≡ labels P
unfolding labels scan_unreachable
labels-scan true [] = refl
labels-scan false [] = refl
labels-scan true (op ∷ rest) = ground (arith, labels-scan true rest, labels-scan false rest)
labels-scan false (op ∷ rest) = ground (arith, labels-scan true rest, labels-scan false rest)

defined-scan :
    (u inside : Bool) (P : List Opcode)
    → (u ≡ true → inside ≡ true)
    → is_nested inside P ≡ true
    → defined (scan_unreachable u P).opcodes ≡ defined P
unfolding defined scan_unreachable is_nested
defined-scan true inside [] hu h = refl
defined-scan false inside [] hu h = refl
defined-scan true true (op ∷ rest) hu h = ground (
  arith,
  defined-scan true true rest,
  defined-scan false true rest,
  defined-scan false false rest,
)
defined-scan true false (op ∷ rest) hu h = cc (hu refl)
defined-scan false true (op ∷ rest) hu h = ground (
  arith,
  defined-scan true true rest,
  defined-scan false true rest,
  defined-scan false false rest,
)
defined-scan false false (op ∷ rest) hu h = ground (arith, defined-scan false true rest)

-- Removing unreachable code keeps the nesting of definitions, the labels and the defined symbols
-- of a program whose definitions nest.
pub remove_unreachable_code-SameLayout :
    (P : List Opcode) → is_nested false P ≡ true → SameLayout P (remove_unreachable_code P).opcodes
unfolding remove_unreachable_code
remove_unreachable_code-SameLayout P h = record {
  same_nesting = nested-scan false false P (λ e. e) h ∙ sym h;
  same_labels = labels-scan false P;
  same_defined = defined-scan false false P (λ e. e) h;
}

-- remove_unnecessary_jumps
jump-neutral :
    (inside : Bool) (first : Instruction) (second : Option Instruction)
    → jumps_to_next first second ≡ true
    → (nests inside first ≡ inside) × (inside_after inside first ≡ inside)
unfolding jumps_to_next nests inside_after
jump-neutral inside first none h = cc
jump-neutral inside (label l) (some second) h = cc
jump-neutral inside _ (some second) h = ground arith

nested-jumps :
    (inside : Bool) (P : List Opcode)
    → is_nested inside (remove_unnecessary_jumps P).opcodes ≡ is_nested inside P
unfolding is_nested remove_unnecessary_jumps
nested-jumps inside [] = refl
nested-jumps inside (op ∷ rest) =
    elim (Bool-cases (jumps_to_next (instruction op) (next_non_noop rest))) [
      | inl q ↦
          let (a, b) = jump-neutral inside (instruction op) (next_non_noop rest) q in
          rw (q, a, b, nested-jumps inside rest)
      | inr q ↦ rw (q, nested-jumps (inside_after inside (instruction op)) rest)
    ]

labels-jumps : (P : List Opcode) → labels (remove_unnecessary_jumps P).opcodes ≡ labels P
unfolding labels remove_unnecessary_jumps
labels-jumps [] = refl
labels-jumps (op ∷ rest) = ground (arith, labels-jumps rest)

defined-jumps : (P : List Opcode) → defined (remove_unnecessary_jumps P).opcodes ≡ defined P
unfolding defined remove_unnecessary_jumps
defined-jumps [] = refl
defined-jumps (op ∷ rest) = ground (arith, defined-jumps rest)

pub remove_unnecessary_jumps-SameLayout :
    (P : List Opcode) → SameLayout P (remove_unnecessary_jumps P).opcodes
remove_unnecessary_jumps-SameLayout P = record {
  same_nesting = nested-jumps false P;
  same_labels = labels-jumps P;
  same_defined = defined-jumps P;
}

-- remove_useless_calls
nested-calls :
    (empty : SymbolSet) (inside : Bool) (P : List Opcode)
    → is_nested inside (remove_calls empty P).opcodes ≡ is_nested inside P
unfolding is_nested remove_calls
nested-calls empty inside [] = refl
nested-calls empty inside (op ∷ rest) =
    ground (arith, nested-calls empty true rest, nested-calls empty false rest)

labels-calls :
    (empty : SymbolSet) (P : List Opcode) → labels (remove_calls empty P).opcodes ≡ labels P
unfolding labels remove_calls
labels-calls empty [] = refl
labels-calls empty (op ∷ rest) = ground (arith, labels-calls empty rest)

defined-calls :
    (empty : SymbolSet) (P : List Opcode) → defined (remove_calls empty P).opcodes ≡ defined P
unfolding defined remove_calls
defined-calls empty [] = refl
defined-calls empty (op ∷ rest) = ground (arith, defined-calls empty rest)

pub remove_useless_calls-SameLayout :
    (P : List Opcode) → SameLayout P (remove_useless_calls P).opcodes
unfolding remove_useless_calls
remove_useless_calls-SameLayout P =
    let empty = find_empty_functions P no_scan in
    record {
      same_nesting = nested-calls empty false P;
      same_labels = labels-calls empty P;
      same_defined = defined-calls empty P;
    }

-- inline_booleans
nested-booleans :
    (inside : Bool) (P : List Opcode)
    → is_nested inside (inline_booleans P).opcodes ≡ is_nested inside P
unfolding is_nested inline_booleans
nested-booleans inside [] = refl
nested-booleans inside (op ∷ rest) =
    ground (arith, nested-booleans true rest, nested-booleans false rest)

labels-booleans : (P : List Opcode) → labels (inline_booleans P).opcodes ≡ labels P
unfolding labels inline_booleans
labels-booleans [] = refl
labels-booleans (op ∷ rest) = ground (arith, labels-booleans rest)

defined-booleans : (P : List Opcode) → defined (inline_booleans P).opcodes ≡ defined P
unfolding defined inline_booleans
defined-booleans [] = refl
defined-booleans (op ∷ rest) = ground (arith, defined-booleans rest)

pub inline_booleans-SameLayout : (P : List Opcode) → SameLayout P (inline_booleans P).opcodes
inline_booleans-SameLayout P = record {
  same_nesting = nested-booleans false P;
  same_labels = labels-booleans P;
  same_defined = defined-booleans P;
}
