-- ===== src/Parser/Emission/Once.antt =====
-- Each label stands once in the opcodes that the parser of compiler/parser.cc emits.
use vnpforth.Prelude.{
  ◌+◌, ◌≤◌, ◌<◌, true, false, List, [], ◌∷◌, ◌==◌, ==_refl, contains, Text, ◌≡◌, refl, arith,
  Option-cases, Bool-cases, ◌⊎◌, inl, inr,
}
use vnpforth.Opcode.{Label, Opcode, instruction, is_label_opcode}
use vnpforth.Semantics.Layout.{labels, is_nodup}
use vnpforth.Parser.{Parser}
use vnpforth.Parser.Outcome.{parsed, aborted, max_allowed_errors}
use vnpforth.Parser.Syntax.{Statements, parse_statements}
use vnpforth.Parser.Syntax.Balanced.{parse_statements_balanced}
use vnpforth.Parser.Emission.{lt_or_le, one_if, count_label, Emits}
use vnpforth.Parser.Emission.Statements.{statements-Emits}

-- Each label that stands in the opcodes stands there once, and has been taken from the sequence.
pub record LabelsOnce (p : Parser) : Type 0 where
  pub once : is_nodup (labels p.opcodes) ≡ true
  pub taken : (l : Label) → contains (labels p.opcodes) l ≡ true → l < p.label_sequence

contains-count :
    (l : Label) (ops : List Opcode) → contains (labels ops) l ≡ true → 1 ≤ count_label l ops
unfolding labels count_label
contains-count l [] h = absurd (cc)
contains-count l (op ∷ rest) h = elim (Option-cases (is_label_opcode (instruction op))) [
  | inl e ↦ rw e (omega (arith, contains-count l rest (rw e at h)))
  | inr (k, e) ↦ ground (arith, contains-count l rest)
]

absent-count :
    (l : Label) (ops : List Opcode) → contains (labels ops) l ≡ false → count_label l ops ≡ 0
unfolding labels count_label
absent-count l [] h = refl
absent-count l (op ∷ rest) h = ground (arith, absent-count l rest)

once-count : (l : Label) (ops : List Opcode) → is_nodup (labels ops) ≡ true → count_label l ops ≤ 1
unfolding labels count_label
once-count l [] h = omega arith
once-count l (op ∷ rest) h = elim (Option-cases (is_label_opcode (instruction op))) [
  | inl e ↦ rw e (omega (arith, once-count l rest (rw e at h)))
  | inr (k, e) ↦ ground (arith, once-count l rest, absent-count l rest, ==_refl k)
]

count-once :
    (ops : List Opcode) → ((l : Label) → count_label l ops ≤ 1) → is_nodup (labels ops) ≡ true
unfolding labels count_label
count-once [] h = refl
count-once (op ∷ rest) h = elim (Option-cases (is_label_opcode (instruction op))) [
  | inl e ↦ rw e (count-once rest (λ l. omega (arith, h l)))
  | inr (k, e) ↦
      let here : one_if (k == k) + count_label k rest ≤ 1 = rw e at (h k) in
      let gone : count_label k rest ≡ 0 = ground (arith, ==_refl k) in
      let new : contains (labels rest) k ≡ false = elim (Bool-cases (contains (labels rest) k)) [
        | inl c ↦ absurd (omega (arith, contains-count k rest c))
        | inr c ↦ c
      ] in
      let others : is_nodup (labels rest) ≡ true =
        count-once rest (λ l. let all = h l in omega arith) in
      rw e (ground arith)
]

untaken :
    {p : Parser} (o : LabelsOnce p) (l : Label) → p.label_sequence ≤ l → count_label l p.opcodes ≡ 0
untaken {p} o l h = elim (Bool-cases (contains (labels p.opcodes) l)) [
  | inl c ↦ absurd (omega (arith, o.taken l c))
  | inr c ↦ absent-count l p.opcodes c
]

pub LabelsOnce-Emits : {p q : Parser} → LabelsOnce p → Emits p q → LabelsOnce q
LabelsOnce-Emits {p} {q} o e = record {
  once = count-once q.opcodes (λ l. elim (lt_or_le l p.label_sequence) [
    | inl h ↦ omega (arith, e.below l h, once-count l p.opcodes o.once)
    | inr h ↦ omega (arith, e.once l, untaken o l h)
  ]);
  taken = λ l c. elim (lt_or_le l q.label_sequence) [
    | inl h ↦ h
    | inr h ↦ absurd (
        omega
          (arith, contains-count l q.opcodes c, e.beyond l h, untaken o l (omega (arith, e.grows))))
  ];
}

module _ (mangle : Text → Text) where
  -- Where each label in the opcodes stands there once and has been taken from the label sequence,
  -- a sequence of words, control structures, EXIT and RECURSE is parsed, with no assertion
  -- failing, and leaves it so; or else the parse is given up, with more than 20 errors counted.
  pub parse_statements-LabelsOnce :
      (s : Statements) (p : Parser)
      → LabelsOnce p
      → ((q : Parser) × (parse_statements mangle s p ≡ parsed q) × LabelsOnce q)
        ⊎ ((q : Parser) × (parse_statements mangle s p ≡ aborted q)
            × (max_allowed_errors < q.error_count))
  parse_statements-LabelsOnce s p o = elim (parse_statements_balanced mangle s p) [
    | inl (q, e, h, b) ↦ inl (q, e, LabelsOnce-Emits o (statements-Emits mangle s p q e))
    | inr given_up ↦ inr given_up
  ]
