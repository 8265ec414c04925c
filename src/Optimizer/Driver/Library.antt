-- ===== src/Optimizer/Driver/Library.antt =====
-- The calls of TRUE and FALSE that the passes of compiler/optimize.cc leave: no pass adds a call that
-- the program had not.
use vnpforth.Prelude.{
  ℕ, Bool, true, false, List, [], ◌∷◌, ◌++◌, none, ◌≡◌, ◌∙◌, refl, arith, ap, Option-cases,
  Bool-cases, inl, inr,
}
use vnpforth.Opcode.{
  Register, created, get_line, Opcode, Label, instruction, register_equals, is_call_opcode,
  is_noop_opcode, is_label_opcode,
}
use vnpforth.Semantics.Layout.{defined, is_nodup, Suffix-find_define}
use vnpforth.Optimizer.Pass.{SymbolSet, is_executable, replace_with, replace_with_nop}
use vnpforth.Optimizer.Unreachable.{scan_unreachable}
use vnpforth.Optimizer.Jumps.{remove_unnecessary_jumps, next_non_noop}
use vnpforth.Optimizer.UselessCalls.{remove_calls}
use vnpforth.Optimizer.Booleans.{inline_booleans}
use vnpforth.Optimizer.Booleans.Correct.{library_booleans, library_booleans-suffix}
use vnpforth.Optimizer.SmallFunctions.{
  inline_calls, splices_of, splice_of_call, inline_small_functions,
}
use vnpforth.Optimizer.SmallFunctions.Plain.{splice_of_call-some, inline-some, inline-none}
use vnpforth.Optimizer.SmallFunctions.Splices.{body_of, find_splice-splices_of}
use vnpforth.Optimizer.PushPop.{find_pair, move, scan_pairs}
use vnpforth.Optimizer.PushPop.Correct.{
  find_pair-Pair, scan-false, scan-false_pair, scan-true, scan-true_noop,
}
use vnpforth.Optimizer.Labels.{remove_labels}
use vnpforth.Optimizer.Relocate.{Relocations, LabelSplices}
use vnpforth.Optimizer.Relocate.Placed.{
  Placed, pieces, all_idle, image, image-nil, image-label, image-other, all_idle-pieces,
}

pub library-scan :
    (ids : List ℕ) (u : Bool) (P : List Opcode)
    → library_booleans ids P ≡ true
    → library_booleans ids (scan_unreachable u P).opcodes ≡ true
unfolding library_booleans scan_unreachable
library-scan ids true [] h = refl
library-scan ids false [] h = refl
library-scan ids true (op ∷ rest) h =
    ground (arith, library-scan ids true rest, library-scan ids false rest)
library-scan ids false (op ∷ rest) h =
    ground (arith, library-scan ids true rest, library-scan ids false rest)

pub library-jumps :
    (ids : List ℕ) (P : List Opcode)
    → library_booleans ids P ≡ true
    → library_booleans ids (remove_unnecessary_jumps P).opcodes ≡ true
unfolding library_booleans remove_unnecessary_jumps
library-jumps ids [] h = refl
library-jumps ids (op ∷ rest) h = ground (arith, library-jumps ids rest)

pub library-calls :
    (ids : List ℕ) (empty : SymbolSet) (P : List Opcode)
    → library_booleans ids P ≡ true
    → library_booleans ids (remove_calls empty P).opcodes ≡ true
unfolding library_booleans remove_calls
library-calls ids empty [] h = refl
library-calls ids empty (op ∷ rest) h = ground (arith, library-calls ids empty rest)

pub library-booleans :
    (ids : List ℕ) (P : List Opcode)
    → library_booleans ids P ≡ true
    → library_booleans ids (inline_booleans P).opcodes ≡ true
unfolding library_booleans inline_booleans
library-booleans ids [] h = refl
library-booleans ids (op ∷ rest) h = ground (arith, library-booleans ids rest)

pub library-labels :
    (ids : List ℕ) (used : List Label) (P : List Opcode)
    → library_booleans ids P ≡ true
    → library_booleans ids (remove_labels used P).opcodes ≡ true
unfolding library_booleans remove_labels
library-labels ids used [] h = refl
library-labels ids used (op ∷ rest) h = ground (arith, library-labels ids used rest)

library-append :
    (ids : List ℕ) (xs ys : List Opcode)
    → library_booleans ids xs ≡ true
    → library_booleans ids ys ≡ true
    → library_booleans ids (xs ++ ys) ≡ true
unfolding library_booleans
library-append ids [] ys h k = k
library-append ids (op ∷ xs) ys h k = ground (arith, library-append ids xs ys)

library-body_of :
    (ids : List ℕ) (body : List Opcode)
    → library_booleans ids body ≡ true
    → library_booleans ids (body_of body) ≡ true
unfolding library_booleans body_of
library-body_of ids [] h = refl
library-body_of ids (op ∷ rest) h = ground (arith, library-body_of ids rest)

library-cons :
    (ids : List ℕ) (op : Opcode) (rest rest' : List Opcode)
    → library_booleans ids (op ∷ rest) ≡ true
    → library_booleans ids rest' ≡ true
    → library_booleans ids (op ∷ rest') ≡ true
unfolding library_booleans
library-cons ids op rest rest' h k = ground arith

library-tail :
    (ids : List ℕ) (op : Opcode) (rest : List Opcode)
    → library_booleans ids (op ∷ rest) ≡ true
    → library_booleans ids rest ≡ true
unfolding library_booleans
library-tail ids op rest h = ground arith

library-no_call :
    (ids : List ℕ) (op : Opcode) (rest : List Opcode)
    → is_call_opcode (instruction op) ≡ none
    → library_booleans ids rest ≡ true
    → library_booleans ids (op ∷ rest) ≡ true
unfolding library_booleans
library-no_call ids op rest e h = rw e h

none_called : (op : Opcode) → is_call_opcode (instruction (replace_with_nop op)) ≡ none
unfolding is_call_opcode
none_called op = refl

-- The calls that inlining adds are those of the definitions.
library-inline_calls :
    (ids : List ℕ) (P code : List Opcode)
    → is_nodup (defined P) ≡ true
    → library_booleans ids P ≡ true
    → library_booleans ids code ≡ true
    → library_booleans ids (inline_calls (splices_of P) code).opcodes ≡ true
unfolding inline_calls
library-inline_calls ids P [] once h k = k
library-inline_calls ids P (op ∷ rest) once h k =
    let onward = library-inline_calls ids P rest once h (library-tail ids op rest k) in
    elim (Option-cases (splice_of_call (splices_of P) (is_call_opcode (instruction op)))) [
      | inl e ↦
          ap (library_booleans ids) (inline-none (splices_of P) op rest e)
          ∙ library-cons ids op rest (inline_calls (splices_of P) rest).opcodes k onward
      | inr (ops, e) ↦
          let (s, c, f) = splice_of_call-some (splices_of P) (is_call_opcode (instruction op)) e in
          let (body, d, small, is) = find_splice-splices_of s P ops once f in
          let inside = library_booleans-suffix ids (Suffix-find_define s P d) h in
          ap (library_booleans ids) (inline-some (splices_of P) op rest e)
          ∙ library-no_call ids (replace_with_nop op)
              (ops ++ (inline_calls (splices_of P) rest).opcodes) (none_called op)
              (library-append ids ops (inline_calls (splices_of P) rest).opcodes
                (rw is (library-body_of ids body inside)) onward)
    ]

pub library-inline_small_functions :
    (ids : List ℕ) (P : List Opcode)
    → is_nodup (defined P) ≡ true
    → library_booleans ids P ≡ true
    → library_booleans ids (inline_small_functions P).opcodes ≡ true
unfolding inline_small_functions
library-inline_small_functions ids P once h = library-inline_calls ids P P once h h

move_no_call : (from to : Register) → is_call_opcode (move from to) ≡ none
unfolding is_call_opcode
move_no_call from to = elim (Bool-cases (register_equals from to)) [ inl q ↦ rw q | inr q ↦ rw q ]

pairs-nil :
    (ids : List ℕ) (in_pair : Bool) → library_booleans ids (scan_pairs in_pair []).opcodes ≡ true
unfolding library_booleans scan_pairs
pairs-nil ids true = refl
pairs-nil ids false = refl

pub library-pairs :
    (ids : List ℕ) (in_pair : Bool) (P : List Opcode)
    → library_booleans ids P ≡ true
    → library_booleans ids (scan_pairs in_pair P).opcodes ≡ true
library-pairs ids true [] h = pairs-nil ids true
library-pairs ids false [] h = pairs-nil ids false
library-pairs ids true (op ∷ rest) h = elim (Bool-cases (is_noop_opcode (instruction op))) [
  | inl q ↦ rw (scan-true_noop op rest q) (
      library-cons ids op rest (scan_pairs true rest).opcodes h
        (library-pairs ids true rest (library-tail ids op rest h)))
  | inr q ↦ rw (scan-true op rest q) (
      library-no_call ids (replace_with_nop op) (scan_pairs false rest).opcodes (none_called op)
        (library-pairs ids false rest (library-tail ids op rest h)))
]
library-pairs ids false (op ∷ rest) h =
    elim (Option-cases (find_pair (instruction op) (next_non_noop rest))) [
      | inl e ↦ rw (scan-false op rest e) (
          library-cons ids op rest (scan_pairs false rest).opcodes h
            (library-pairs ids false rest (library-tail ids op rest h)))
      | inr (i, e) ↦
          let p = find_pair-Pair (instruction op) (next_non_noop rest) e in
          rw (scan-false_pair op rest e) (
            library-no_call ids (replace_with op (created i (get_line op)))
              (scan_pairs true rest).opcodes (rw p.moves (move_no_call p.from p.to))
              (library-pairs ids true rest (library-tail ids op rest h)))
    ]

library-all_idle :
    (ids : List ℕ) (ops code : List Opcode)
    → all_idle ops ≡ true
    → library_booleans ids (ops ++ code) ≡ library_booleans ids code
unfolding library_booleans is_executable is_label_opcode is_noop_opcode is_call_opcode
library-all_idle ids [] code h = refl
library-all_idle ids (op ∷ ops) code h = ground (arith, library-all_idle ids ops code)

pub library-moved :
    (ids : List ℕ) (r : Relocations) (splices : LabelSplices) (placed : Placed r splices)
    (P : List Opcode)
    → library_booleans ids P ≡ true
    → library_booleans ids (image r splices placed P) ≡ true
library-moved ids r splices placed [] h = ap (library_booleans ids) (image-nil r splices placed) ∙ h
library-moved ids r splices placed (op ∷ rest) h =
    let onward = library-moved ids r splices placed rest (library-tail ids op rest h) in
    elim (Option-cases (is_label_opcode (instruction op))) [
      | inl e ↦
          ap (library_booleans ids) (image-other r splices placed op rest e)
          ∙ library-cons ids op rest (image r splices placed rest) h onward
      | inr (k, e) ↦
          ap (library_booleans ids) (image-label r splices placed op rest e)
          ∙ library-all_idle ids (pieces r splices k op) (image r splices placed rest)
              (all_idle-pieces r splices placed op k e)
          ∙ onward
    ]
