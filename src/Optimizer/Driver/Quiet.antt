-- ===== src/Optimizer/Driver/Quiet.antt =====
-- The passes of compiler/optimize.cc where they count no optimization.
use vnpforth.Prelude.{
  ◌+◌, Bool, true, false, List, [], ◌∷◌, none, some, ◌≡◌, refl, arith, Option-cases, inl, inr, ◌∙◌,
  ap, sym, >>=-eq-some,
}
use vnpforth.Opcode.{Label, Opcode, Instruction, instruction, is_call_opcode}
use vnpforth.Optimizer.Pass.{Pass, keep, SymbolSet}
use vnpforth.Optimizer.Unreachable.{scan_unreachable, remove_unreachable_code}
use vnpforth.Optimizer.Jumps.{remove_unnecessary_jumps, next_non_noop}
use vnpforth.Optimizer.UselessCalls.{
  remove_calls, remove_useless_calls, find_empty_functions, no_scan,
}
use vnpforth.Optimizer.Booleans.{inline_booleans}
use vnpforth.Optimizer.SmallFunctions.{
  inline_calls, SpliceMap, splices_of, inline_small_functions, splice_of_call,
}
use vnpforth.Optimizer.PushPop.{scan_pairs, replace_adjacent_push_pop_pairs, find_pair}
use vnpforth.Optimizer.Relocate.{
  relocate_opcodes, relocate_suboptimal_labels, Relocations, LabelSplices, advance_all, keys,
  scan_relocations, no_relocations, build_label_splices,
}
use vnpforth.Optimizer.Labels.{remove_labels, remove_unnecessary_labels, used_labels}

abbrev pub IsQuiet : (List Opcode → Pass) → Type 0
IsQuiet f = (P : List Opcode) → (f P).optimizations ≡ 0 → (f P).opcodes ≡ P

scan_unreachable-IsQuiet : (u : Bool) → IsQuiet (scan_unreachable u)
unfolding scan_unreachable
scan_unreachable-IsQuiet true [] h = refl
scan_unreachable-IsQuiet false [] h = refl
scan_unreachable-IsQuiet true (op ∷ rest) h =
    ground (arith, scan_unreachable-IsQuiet true rest, scan_unreachable-IsQuiet false rest)
scan_unreachable-IsQuiet false (op ∷ rest) h =
    ground (arith, scan_unreachable-IsQuiet true rest, scan_unreachable-IsQuiet false rest)

pub remove_unreachable_code-IsQuiet : IsQuiet remove_unreachable_code
unfolding remove_unreachable_code
remove_unreachable_code-IsQuiet P h = scan_unreachable-IsQuiet false P h

pub remove_unnecessary_jumps-IsQuiet : IsQuiet remove_unnecessary_jumps
unfolding remove_unnecessary_jumps
remove_unnecessary_jumps-IsQuiet [] h = refl
remove_unnecessary_jumps-IsQuiet (op ∷ rest) h =
    ground (arith, remove_unnecessary_jumps-IsQuiet rest)

remove_calls-IsQuiet : (empty : SymbolSet) → IsQuiet (remove_calls empty)
unfolding remove_calls
remove_calls-IsQuiet empty [] h = refl
remove_calls-IsQuiet empty (op ∷ rest) h = ground (arith, remove_calls-IsQuiet empty rest)

pub remove_useless_calls-IsQuiet : IsQuiet remove_useless_calls
unfolding remove_useless_calls
remove_useless_calls-IsQuiet P h = remove_calls-IsQuiet (find_empty_functions P no_scan) P h

pub inline_booleans-IsQuiet : IsQuiet inline_booleans
unfolding inline_booleans
inline_booleans-IsQuiet [] h = refl
inline_booleans-IsQuiet (op ∷ rest) h = ground (arith, inline_booleans-IsQuiet rest)

inline_calls-IsQuiet : (m : SpliceMap) → IsQuiet (inline_calls m)
unfolding inline_calls
inline_calls-IsQuiet m [] h = refl
inline_calls-IsQuiet m (op ∷ rest) h =
    elim (Option-cases (splice_of_call m (is_call_opcode (instruction op)))) [
      | inl e ↦ ground (arith, inline_calls-IsQuiet m rest)
      | inr (ops, e) ↦ absurd (ground arith)
    ]

pub inline_small_functions-IsQuiet : IsQuiet inline_small_functions
unfolding inline_small_functions
inline_small_functions-IsQuiet P h = inline_calls-IsQuiet (splices_of P) P h

scan_pairs-keep :
    (op : Opcode) (rest : List Opcode)
    → find_pair (instruction op) (next_non_noop rest) ≡ none
    → scan_pairs false (op ∷ rest) ≡ keep op (scan_pairs false rest)
unfolding scan_pairs
scan_pairs-keep op rest e = rw (e, scan_pairs)

scan_pairs-replace :
    (op : Opcode) (rest : List Opcode) {i : Instruction}
    → find_pair (instruction op) (next_non_noop rest) ≡ some i
    → (scan_pairs false (op ∷ rest)).optimizations ≡ (scan_pairs true rest).optimizations + 1
unfolding scan_pairs
scan_pairs-replace op rest e = rw (e, scan_pairs)

scan_pairs-IsQuiet : IsQuiet (scan_pairs false)
scan_pairs-IsQuiet [] h = scan_pairs-nil
  where
    scan_pairs-nil : (scan_pairs false []).opcodes ≡ []
    scan_pairs-nil = unfold scan_pairs in refl
scan_pairs-IsQuiet (op ∷ rest) h =
    elim (Option-cases (find_pair (instruction op) (next_non_noop rest))) [
      | inl e ↦
          let q = scan_pairs-keep op rest e in
          rw q (
            ap (λ ops. op ∷ ops)
              (scan_pairs-IsQuiet rest (sym (ap (λ (p : Pass). p.optimizations) q) ∙ h)))
      | inr (i, e) ↦ absurd (omega (arith, scan_pairs-replace op rest e))
    ]

pub replace_adjacent_push_pop_pairs-IsQuiet : IsQuiet replace_adjacent_push_pop_pairs
unfolding replace_adjacent_push_pop_pairs
replace_adjacent_push_pop_pairs-IsQuiet P h = scan_pairs-IsQuiet P h

relocate_opcodes-IsQuiet : (m : Relocations) (s : LabelSplices) → IsQuiet (relocate_opcodes m s)
unfolding relocate_opcodes
relocate_opcodes-IsQuiet m s [] h = refl
relocate_opcodes-IsQuiet m s (op ∷ rest) h = ground (arith, relocate_opcodes-IsQuiet m s rest)

-- Relocation gives a result, and the table as it was if it counts nothing.
pub relocate_suboptimal_labels-quiet :
    (P : List Opcode) (p : Pass)
    → relocate_suboptimal_labels P ≡ some p
    → p.optimizations ≡ 0
    → p.opcodes ≡ P
unfolding relocate_suboptimal_labels
relocate_suboptimal_labels-quiet P p h z =
    let scan = scan_relocations P no_relocations in
    let (r, _, e) =
      >>=-eq-some (advance_all (keys scan.relocations) scan.relocations)
        (λ r. some (relocate_opcodes r (build_label_splices r scan.label_lines []) P)) h in
    let w : relocate_opcodes r (build_label_splices r scan.label_lines []) P ≡ p = cc in
    sym (ap (λ (q : Pass). q.opcodes) w)
    ∙ relocate_opcodes-IsQuiet r (build_label_splices r scan.label_lines []) P
        (ap (λ (q : Pass). q.optimizations) w ∙ z)

remove_labels-IsQuiet : (used : List Label) → IsQuiet (remove_labels used)
unfolding remove_labels
remove_labels-IsQuiet used [] h = refl
remove_labels-IsQuiet used (op ∷ rest) h = ground (arith, remove_labels-IsQuiet used rest)

pub remove_unnecessary_labels-IsQuiet : IsQuiet remove_unnecessary_labels
unfolding remove_unnecessary_labels
remove_unnecessary_labels-IsQuiet P h = remove_labels-IsQuiet (used_labels P) P h
