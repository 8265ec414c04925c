-- ===== src/Optimizer/Layout/Spliced.antt =====
-- The shape of a program around `replace_adjacent_push_pop_pairs` of compiler/optimize.cc.
use vnpforth.Prelude.{
  Bool, true, false, not, List, [], ◌∷◌, Option, ◌≡◌, refl, arith, Bool-cases, Option-cases, inl,
  inr,
}
use vnpforth.Opcode.{
  no_op, Opcode, Instruction, instruction, is_noop_opcode, is_pop_opcode, register_equals,
}
use vnpforth.Semantics.Layout.{labels, defined, is_nested}
use vnpforth.Optimizer.Pass.{is_some}
use vnpforth.Semantics.Layout.{nests, inside_after}
use vnpforth.Optimizer.Layout.{SameLayout}
use vnpforth.Optimizer.Jumps.{next_non_noop}
use vnpforth.Optimizer.PushPop.{find_pair, scan_pairs, replace_adjacent_push_pop_pairs}
use vnpforth.Optimizer.PushPop.Correct.{
  is_pop_next, Pair, find_pair-Pair, scan-false, scan-false_pair, scan-true, scan-true_noop,
}

-- replace_adjacent_push_pop_pairs
labels-pairs :
    (in_pair : Bool) (P : List Opcode)
    → (in_pair ≡ true → is_pop_next (next_non_noop P) ≡ true)
    → labels (scan_pairs in_pair P).opcodes ≡ labels P
unfolding labels scan_pairs
labels-pairs true [] h = refl
labels-pairs false [] h = refl
labels-pairs true (op ∷ rest) h = ground (arith, labels-pairs true rest, labels-pairs false rest)
labels-pairs false (op ∷ rest) h = ground (arith, labels-pairs true rest, labels-pairs false rest)

defined-pairs :
    (in_pair : Bool) (P : List Opcode)
    → (in_pair ≡ true → is_pop_next (next_non_noop P) ≡ true)
    → defined (scan_pairs in_pair P).opcodes ≡ defined P
unfolding defined scan_pairs
defined-pairs true [] h = refl
defined-pairs false [] h = refl
defined-pairs true (op ∷ rest) h = ground (arith, defined-pairs true rest, defined-pairs false rest)
defined-pairs false (op ∷ rest) h =
    ground (arith, defined-pairs true rest, defined-pairs false rest)

pop-neutral :
    (inside : Bool) (i : Instruction)
    → is_some (is_pop_opcode i) ≡ true
    → (nests inside i ≡ inside) × (inside_after inside i ≡ inside)
unfolding is_pop_opcode nests inside_after
pop-neutral inside no_op h = cc
pop-neutral inside _ h = ground arith

Pair-neutral :
    (inside : Bool) {first : Instruction} {second : Option Instruction} {moved : Instruction}
    → Pair first second moved
    → (nests inside first ≡ inside)
      × (inside_after inside first ≡ inside)
      × (nests inside moved ≡ inside)
      × (inside_after inside moved ≡ inside)
      × (is_pop_next second ≡ true)
unfolding nests inside_after is_pop_opcode register_equals
Pair-neutral inside p = (ground arith, ground arith, ground arith, ground arith, rw (p.pops))

noop-neutral :
    (inside : Bool) (i : Instruction)
    → is_noop_opcode i ≡ true
    → (nests inside i ≡ inside) × (inside_after inside i ≡ inside)
unfolding is_noop_opcode nests inside_after
noop-neutral inside no_op h = (refl, refl)
noop-neutral inside _ h = cc

next-noop :
    (op : Opcode) (rest : List Opcode)
    → is_noop_opcode (instruction op) ≡ true
    → is_pop_next (next_non_noop (op ∷ rest)) ≡ true
    → is_pop_next (next_non_noop rest) ≡ true
unfolding next_non_noop
next-noop op rest q h = rw q at h

next-other :
    (op : Opcode) (rest : List Opcode)
    → is_noop_opcode (instruction op) ≡ false
    → is_pop_next (next_non_noop (op ∷ rest)) ≡ true
    → is_some (is_pop_opcode (instruction op)) ≡ true
unfolding next_non_noop
next-other op rest q h = rw q at h

nested-nil : (in_pair inside : Bool) → is_nested inside (scan_pairs in_pair []).opcodes ≡ not inside
unfolding is_nested scan_pairs
nested-nil true inside = refl
nested-nil false inside = refl

nested-pairs :
    (in_pair inside : Bool) (P : List Opcode)
    → (in_pair ≡ true → is_pop_next (next_non_noop P) ≡ true)
    → is_nested inside (scan_pairs in_pair P).opcodes ≡ is_nested inside P
unfolding is_nested
nested-pairs true inside [] h = nested-nil true inside
nested-pairs false inside [] h = nested-nil false inside
nested-pairs true inside (op ∷ rest) h = elim (Bool-cases (is_noop_opcode (instruction op))) [
  | inl q ↦
      let (a, b) = noop-neutral inside (instruction op) q in
      rw (
        scan-true_noop op rest q,
        a,
        b,
        nested-pairs true inside rest (λ e. next-noop op rest q (h refl)),
      )
  | inr q ↦
      let (a, b) = pop-neutral inside (instruction op) (next-other op rest q (h refl)) in
      rw (scan-true op rest q, a, b, nested-pairs false inside rest (λ e. cc))
]
nested-pairs false inside (op ∷ rest) h =
    elim (Option-cases (find_pair (instruction op) (next_non_noop rest))) [
      | inl e ↦ rw (
        scan-false op rest e,
        nested-pairs false (inside_after inside (instruction op)) rest (λ e. cc),
      )
      | inr (i, e) ↦
          let p = find_pair-Pair (instruction op) (next_non_noop rest) e in
          let (a, b, c, d, x) = Pair-neutral inside p in
          rw (scan-false_pair op rest e, a, b, c, d, nested-pairs true inside rest (λ e. x))
    ]

pub replace_adjacent_push_pop_pairs-SameLayout :
    (P : List Opcode) → SameLayout P (replace_adjacent_push_pop_pairs P).opcodes
unfolding replace_adjacent_push_pop_pairs
replace_adjacent_push_pop_pairs-SameLayout P = record {
  same_nesting = nested-pairs false false P (λ e. cc);
  same_labels = labels-pairs false P (λ e. cc);
  same_defined = defined-pairs false P (λ e. cc);
}
