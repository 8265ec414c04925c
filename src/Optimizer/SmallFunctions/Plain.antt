-- ===== src/Optimizer/SmallFunctions/Plain.antt =====
-- The code of splices, and labels and definitions around `inline_calls`.
use vnpforth.Prelude.{
  ℕ, true, List, [], ◌∷◌, ◌++◌, Option, none, some, ◌≡◌, refl, arith, Option-cases, inl, inr,
}
use vnpforth.Symbol.{Symbol}
use vnpforth.Opcode.{
  no_op, Opcode, Instruction, Label, instruction, is_label_opcode, is_call_opcode, is_define_opcode,
  is_enddefine_opcode,
}
use vnpforth.Semantics.{find_label, find_define}
use vnpforth.Semantics.Simulation.{MatchesLabel, MatchesDefines}
use vnpforth.Semantics.Layout.{defined, is_nodup}
use vnpforth.Semantics.Unique.{find_label-skip, find_define-skip}
use vnpforth.Optimizer.Pass.{replace_with_nop, is_executable}
use vnpforth.Prelude.{◌+◌}
use vnpforth.Optimizer.SmallFunctions.{
  SpliceMap, find_splice, splice_of_call, inline_calls, splices_of, one_if,
}
use vnpforth.Optimizer.SmallFunctions.Candidates.{is_small}
use vnpforth.Optimizer.SmallFunctions.Splices.{body_of, find_splice-splices_of}

-- A spliced body carries no label and starts no definition.
find_label-body_of :
    (l : Label) (count : ℕ) (body code : List Opcode)
    → is_small count body ≡ true
    → find_label l (body_of body ++ code) ≡ find_label l code
unfolding find_label body_of is_small
find_label-body_of l count [] code h = refl
find_label-body_of l count (op ∷ rest) code h =
    ground (arith, find_label-body_of l (count + one_if (is_executable (instruction op))) rest code)

find_define-body_of :
    (s : Symbol) (count : ℕ) (body code : List Opcode)
    → is_small count body ≡ true
    → find_define s (body_of body ++ code) ≡ find_define s code
unfolding find_define body_of is_small is_define_opcode is_enddefine_opcode
find_define-body_of s count [] code h = refl
find_define-body_of s count (op ∷ rest) code h =
    ground
      (arith, find_define-body_of s (count + one_if (is_executable (instruction op))) rest code)

abbrev pub Plain : SpliceMap → Type 0
Plain m =
    (s : Symbol) (ops : List Opcode)
    → find_splice s m ≡ some ops
    → (body : List Opcode) × (is_small 0 body ≡ true) × (ops ≡ body_of body)

pub splice_of_call-some :
    (m : SpliceMap) (o : Option Symbol) {ops : List Opcode}
    → splice_of_call m o ≡ some ops
    → (s : Symbol) × (o ≡ some s) × (find_splice s m ≡ some ops)
splice_of_call-some m none h = cc
splice_of_call-some m (some s) h = (s, refl, h)

pub inline-some :
    (m : SpliceMap) (op : Opcode) (rest : List Opcode) {ops : List Opcode}
    → splice_of_call m (is_call_opcode (instruction op)) ≡ some ops
    → (inline_calls m (op ∷ rest)).opcodes
      ≡ replace_with_nop op ∷ (ops ++ (inline_calls m rest).opcodes)
unfolding inline_calls
inline-some m op rest h = rw h

pub inline-none :
    (m : SpliceMap) (op : Opcode) (rest : List Opcode)
    → splice_of_call m (is_call_opcode (instruction op)) ≡ none
    → (inline_calls m (op ∷ rest)).opcodes ≡ op ∷ (inline_calls m rest).opcodes
unfolding inline_calls
inline-none m op rest h = rw h

pub call-ne-label :
    (i : Instruction) {s : Symbol}
    → is_call_opcode i ≡ some s
    → (is_label_opcode i ≡ none) × (is_define_opcode i ≡ none)
unfolding is_call_opcode is_label_opcode is_define_opcode
call-ne-label no_op e = (refl, refl)
call-ne-label _ e = (cc, cc)

module _ (m : SpliceMap) (plain : Plain m) where
  abbrev inlined : List Opcode → List Opcode
  inlined code = (inline_calls m code).opcodes

  pub find_label-inline : (l : Label) (P : List Opcode) → MatchesLabel P (inlined P) inlined l
  unfolding find_label inline_calls
  find_label-inline l [] = refl
  find_label-inline l (op ∷ rest) =
      elim (Option-cases (splice_of_call m (is_call_opcode (instruction op)))) [
        | inl e ↦ rw (inline-none m op rest e) (ground (arith, find_label-inline l rest))
        | inr (ops, e) ↦
            let (s, c, f) = splice_of_call-some m (is_call_opcode (instruction op)) e in
            let (body, small, g) = plain s ops f in
            rw
              (
                inline-some m op rest e,
                g,
                find_label-body_of l 0 body (inlined rest) small,
                find_label-skip l op rest (call-ne-label (instruction op) c).0,
              )
              (find_label-inline l rest)
      ]

  pub find_define-inline : (P : List Opcode) → MatchesDefines P (inlined P) inlined
  unfolding find_define inline_calls
  find_define-inline [] s = refl
  find_define-inline (op ∷ rest) s =
      elim (Option-cases (splice_of_call m (is_call_opcode (instruction op)))) [
        | inl e ↦ rw (inline-none m op rest e) (ground (arith, find_define-inline rest s))
        | inr (ops, e) ↦
            let (d, c, f) = splice_of_call-some m (is_call_opcode (instruction op)) e in
            let (body, small, g) = plain d ops f in
            rw
              (
                inline-some m op rest e,
                g,
                find_define-body_of s 0 body (inlined rest) small,
                find_define-skip s op rest (call-ne-label (instruction op) c).1,
              )
              (find_define-inline rest s)
      ]

pub splices_of-Plain : (P : List Opcode) → is_nodup (defined P) ≡ true → Plain (splices_of P)
splices_of-Plain P once s ops h =
    let (body, _, small, e) = find_splice-splices_of s P ops once h in (body, small, e)
