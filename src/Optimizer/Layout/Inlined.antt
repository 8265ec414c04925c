-- ===== src/Optimizer/Layout/Inlined.antt =====
-- The shape of a program around `inline_small_functions` of compiler/optimize.cc.
use vnpforth.Prelude.{
  ℕ, Bool, true, false, ◌&&◌, List, [], ◌∷◌, ◌++◌, some, ◌≡◌, refl, ◌∙◌, arith, Option-cases, inl,
  inr,
}
use vnpforth.Symbol.{Symbol}
use vnpforth.Opcode.{
  no_op, Opcode, Instruction, instruction, is_call_opcode, is_define_opcode, is_enddefine_opcode,
}
use vnpforth.Semantics.Layout.{labels, defined, is_nodup, is_nested}
use vnpforth.Optimizer.Pass.{is_executable}
use vnpforth.Prelude.{◌+◌}
use vnpforth.Semantics.Layout.{nests, inside_after}
use vnpforth.Optimizer.Layout.{SameLayout}
use vnpforth.Optimizer.SmallFunctions.{
  SpliceMap, inline_calls, splices_of, inline_small_functions, one_if, splice_of_call,
}
use vnpforth.Optimizer.SmallFunctions.Candidates.{is_small}
use vnpforth.Optimizer.SmallFunctions.Splices.{body_of}
use vnpforth.Optimizer.SmallFunctions.Plain.{
  Plain, splices_of-Plain, call-ne-label, splice_of_call-some, inline-some, inline-none,
}

labels-body_of :
    (count : ℕ) (body code : List Opcode)
    → is_small count body ≡ true
    → labels (body_of body ++ code) ≡ labels code
unfolding labels body_of is_small
labels-body_of count [] code h = refl
labels-body_of count (op ∷ rest) code h =
    ground (arith, labels-body_of (count + one_if (is_executable (instruction op))) rest code)

defined-body_of :
    (count : ℕ) (body code : List Opcode)
    → is_small count body ≡ true
    → defined (body_of body ++ code) ≡ defined code
unfolding defined body_of is_small is_define_opcode is_enddefine_opcode
defined-body_of count [] code h = refl
defined-body_of count (op ∷ rest) code h =
    ground (arith, defined-body_of (count + one_if (is_executable (instruction op))) rest code)

nested-body_of :
    (count : ℕ) (body code : List Opcode)
    → is_small count body ≡ true
    → is_nested true (body_of body ++ code) ≡ is_nested true code
unfolding is_nested body_of is_small is_define_opcode is_enddefine_opcode
nested-body_of count [] code h = refl
nested-body_of count (op ∷ rest) code h =
    ground (arith, nested-body_of (count + one_if (is_executable (instruction op))) rest code)

call-neutral :
    (inside : Bool) (i : Instruction) {s : Symbol}
    → is_call_opcode i ≡ some s
    → (nests inside i ≡ inside) × (inside_after inside i ≡ inside)
unfolding is_call_opcode nests inside_after
call-neutral inside no_op h = cc
call-neutral inside _ h = ground arith

inside_only :
    (inside : Bool) (body code code' : List Opcode)
    → is_small 0 body ≡ true
    → is_nested true code ≡ is_nested true code'
    → (inside && is_nested inside (body_of body ++ code)) ≡ (inside && is_nested inside code')
inside_only true body code code' small e = nested-body_of 0 body code small ∙ e
inside_only false body code code' small e = refl

module _ (m : SpliceMap) (is_plain : Plain m) where
  abbrev inlined : List Opcode → List Opcode
  inlined code = (inline_calls m code).opcodes

  labels-inlined : (P : List Opcode) → labels (inlined P) ≡ labels P
  unfolding labels inline_calls
  labels-inlined [] = refl
  labels-inlined (op ∷ rest) =
      elim (Option-cases (splice_of_call m (is_call_opcode (instruction op)))) [
        | inl e ↦ ground (arith, labels-inlined rest)
        | inr (ops, e) ↦
            let (s, c, f) = splice_of_call-some m (is_call_opcode (instruction op)) e in
            let (body, small, g) = is_plain s ops f in
            rw
              (
                inline-some m op rest e,
                g,
                labels-body_of 0 body (inlined rest) small,
                (call-ne-label (instruction op) c).0,
              )
              (labels-inlined rest)
      ]

  defined-inlined : (P : List Opcode) → defined (inlined P) ≡ defined P
  unfolding defined inline_calls
  defined-inlined [] = refl
  defined-inlined (op ∷ rest) =
      elim (Option-cases (splice_of_call m (is_call_opcode (instruction op)))) [
        | inl e ↦ ground (arith, defined-inlined rest)
        | inr (ops, e) ↦
            let (s, c, f) = splice_of_call-some m (is_call_opcode (instruction op)) e in
            let (body, small, g) = is_plain s ops f in
            rw
              (
                inline-some m op rest e,
                g,
                defined-body_of 0 body (inlined rest) small,
                (call-ne-label (instruction op) c).1,
              )
              (defined-inlined rest)
      ]

  nested-inlined :
      (inside : Bool) (P : List Opcode) → is_nested inside (inlined P) ≡ is_nested inside P
  unfolding is_nested inline_calls
  nested-inlined inside [] = refl
  nested-inlined inside (op ∷ rest) =
      elim (Option-cases (splice_of_call m (is_call_opcode (instruction op)))) [
        | inl e ↦
            rw (inline-none m op rest e, nested-inlined (inside_after inside (instruction op)) rest)
        | inr (ops, e) ↦
            let (s, c, f) = splice_of_call-some m (is_call_opcode (instruction op)) e in
            let (body, small, g) = is_plain s ops f in
            let (a, b) = call-neutral inside (instruction op) c in
            rw (inline-some m op rest e, g, a, b)
              (inside_only inside body (inlined rest) rest small (nested-inlined true rest))
      ]

-- Inlining small functions keeps the nesting of definitions, the labels and the defined symbols of
-- a program that defines a symbol once.
pub inline_small_functions-SameLayout :
    (P : List Opcode)
    → is_nodup (defined P) ≡ true
    → SameLayout P (inline_small_functions P).opcodes
unfolding inline_small_functions
inline_small_functions-SameLayout P once =
    let is_plain = splices_of-Plain P once in
    record {
      same_nesting = nested-inlined (splices_of P) is_plain false P;
      same_labels = labels-inlined (splices_of P) is_plain P;
      same_defined = defined-inlined (splices_of P) is_plain P;
    }
