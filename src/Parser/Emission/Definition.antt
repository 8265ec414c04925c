-- ===== src/Parser/Emission/Definition.antt =====
-- The labels that a definition by `:` emits, of compiler/parser.cc.
use vnpforth.Prelude.{
  ℕ, ◌+◌, ◌≤◌, Option, none, some, ◌==◌, Text, ◌≡◌, ◌∙◌, refl, arith, Bool-cases, ◌⊎◌, inl, inr,
  ◌<◌,
}
use vnpforth.Symbol.{Symbol, is_anonword_symbol}
use vnpforth.Opcode.{Label}
use vnpforth.Parser.{Parser, lookup, begin_word, push_label, end_word, f_definedword}
use vnpforth.Parser.Outcome.{
  parsed, aborted, ◌>>=◌, max_allowed_errors, mne-eq, mne_bind-eq, >>=-eq-parsed,
}
use vnpforth.Parser.Syntax.{Statements, parse_statements, parse_definition, semicolon_action}
use vnpforth.Parser.Syntax.Definition.{
  parse_definition_balanced, begin_word-stacks, f_semicolon-some,
}
use vnpforth.Parser.Emission.{
  one_if, count_label, count_label-append, Step, Closes-Step, Emits, Emits-Around, Around,
}
use vnpforth.Parser.Emission.Statements.{statements-Emits}
use vnpforth.Parser.Emission.Structures.{statements_stacks}
use vnpforth.Parser.Emission.Once.{LabelsOnce, LabelsOnce-Emits}

module _ (mangle : Text → Text) where
  -- A word that begins takes the label of its end.
  Step-begin_word :
      (o : Option Symbol) (name : Text) (p : Parser)
      → Step p
          (begin_word mangle o name (record (push_label p) { exit_label = p.label_sequence }))
          1
          (λ l. 0)
  unfolding count_label
  Step-begin_word none name p = record {
    sequence = refl;
    count = λ l. grind (arith, count_label-append);
  }
  Step-begin_word (some s) name p = record { sequence = refl; count = λ l. omega arith }

  -- How often the end of a word emits its label.
  abbrev end_label : Option Symbol → Label → Label → ℕ
  end_label none n l = 0
  end_label (some s) n l = one_if (n == l)

  Step-end_word :
      (o : Option Symbol) (n : Label) (p : Parser)
      → Step p (end_word mangle o n p) 0 (end_label o n)
  unfolding count_label
  Step-end_word none n p = record { sequence = omega arith; count = λ l. omega arith }
  Step-end_word (some s) n p = elim (Bool-cases (is_anonword_symbol s.kind)) [
    | inl a ↦ record {
      sequence = rw a (omega arith);
      count = λ l. rw a (grind (arith, count_label-append));
    }
    | inr a ↦ record {
      sequence = rw a (omega arith);
      count = λ l. rw a (grind (arith, count_label-append));
    }
  ]

  Around-word :
      (p p' r q : Parser) (o : Option Symbol)
      → p'.label_sequence ≡ p.label_sequence + 1
      → p'.label_sequence ≤ r.label_sequence
      → q.label_sequence ≡ r.label_sequence + 0
      → Around p p' r q (λ l. 0 + end_label o p.label_sequence l)
  Around-word p p' r q none a b c = record {
    not_below = λ l h. omega arith;
    not_inside = λ l h k. omega arith;
    not_beyond = λ l h. omega arith;
    at_most_once = λ l. omega arith;
  }
  Around-word p p' r q (some s) a b c = record {
    not_below = λ l h. ground arith;
    not_inside = λ l h k. ground arith;
    not_beyond = λ l h. ground arith;
    at_most_once = λ l. ground arith;
  }

  definition-Emits :
      (name : Text) (body : Statements) (p q : Parser)
      → parse_definition mangle name body p ≡ parsed q
      → Emits p q
  unfolding parse_definition
  definition-Emits name body p q e =
      let n = p.label_sequence in
      let opened = f_definedword mangle name p in
      let taken = record (push_label p) { exit_label = n } in
      let (l, b) = begin_word-stacks mangle (lookup mangle name p) name taken in
      let f =
        mne_bind-eq p opened (λ r. parse_statements mangle body r >>= semicolon_action mangle) e in
      let (r, er, ec) =
        >>=-eq-parsed (parse_statements mangle body opened) (semicolon_action mangle) f in
      let (h, br) = statements_stacks mangle body opened r er in
      let inner = statements-Emits mangle body opened r er in
      let at_end = record r { label_stack = p.label_stack; exit_label = 0 } in
      let ended = end_word mangle r.current_definition n at_end in
      let step = Step-end_word r.current_definition n at_end in
      let close : Step r q 0 (end_label r.current_definition n) =
        Closes-Step
          (record {
            parser = ended;
            result = f_semicolon-some mangle r n p.label_stack (h ∙ l);
            step = record { sequence = step.sequence; count = step.count };
          })
          (mne-eq r _ ec) in
      let start = Step-begin_word (lookup mangle name p) name p in
      Emits-Around p opened r q 1 0 (λ l. 0) (end_label r.current_definition n) start inner close
        (Around-word p opened r q r.current_definition start.sequence inner.grows close.sequence)

  -- Where each label in the opcodes stands there once and has been taken from the label sequence,
  -- a definition by `:`, whose body is words, control structures, EXIT and RECURSE, is parsed,
  -- with no assertion failing, and leaves it so, as the optimizer needs it; or else the parse is
  -- given up, with more than 20 errors counted.
  pub parse_definition-LabelsOnce :
      (name : Text) (body : Statements) (p : Parser)
      → LabelsOnce p
      → ((q : Parser) × (parse_definition mangle name body p ≡ parsed q) × LabelsOnce q)
        ⊎ ((q : Parser) × (parse_definition mangle name body p ≡ aborted q)
            × (max_allowed_errors < q.error_count))
  parse_definition-LabelsOnce name body p o = elim (parse_definition_balanced mangle name body p) [
    | inl (q, e, a, b, c, d) ↦ inl (q, e, LabelsOnce-Emits o (definition-Emits name body p q e))
    | inr given_up ↦ inr given_up
  ]
