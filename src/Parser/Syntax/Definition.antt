-- ===== src/Parser/Syntax/Definition.antt =====
-- The stacks and the open definition of the parser around a definition by `:`.
use vnpforth.Prelude.{
  List, ◌∷◌, Option, none, some, ◌≡◌, ◌∙◌, refl, Text, Bool-cases, ◌⊎◌, inl, inr, ◌<◌, arith,
}
use vnpforth.Symbol.{Symbol, is_anonword_symbol}
use vnpforth.Opcode.{Label}
use vnpforth.Parser.{
  Parser, parse_error, begin_word, lookup, push_label, end_word, f_semicolon, f_definedword,
}
use vnpforth.Parser.Outcome.{parsed, aborted, excessive_errors, max_allowed_errors}
use vnpforth.Parser.Syntax.{Statements, parse_definition}
use vnpforth.Parser.Syntax.Leaves.{Leaves, restored, given_up}
use vnpforth.Parser.Syntax.Balanced.{statements-Restores}

-- The end of the definition that is open, or of none.
record Ended (q r : Parser) : Type 0 where
  label_stack : r.label_stack ≡ q.label_stack
  break_stack : r.break_stack ≡ q.break_stack
  current_definition : r.current_definition ≡ none
  exit_label : r.exit_label ≡ q.exit_label

module _ (mangle : Text → Text) where
  Ended-end_word :
      (o : Option Symbol) (l : Label) (q : Parser)
      → q.current_definition ≡ o
      → Ended q (end_word mangle o l q)
  Ended-end_word none l q h = record {
    label_stack = refl;
    break_stack = refl;
    current_definition = h;
    exit_label = refl;
  }
  Ended-end_word (some s) l q h = elim (Bool-cases (is_anonword_symbol s.kind)) [
    | inl a ↦ record {
      label_stack = rw a;
      break_stack = rw a;
      current_definition = rw a;
      exit_label = rw a;
    }
    | inr a ↦ record {
      label_stack = rw a;
      break_stack = rw a;
      current_definition = rw a;
      exit_label = rw a;
    }
  ]

  -- The two stacks behind the start of a definition.
  pub begin_word-stacks :
      (o : Option Symbol) (name : Text) (p : Parser)
      → ((begin_word mangle o name p).label_stack ≡ p.label_stack)
        × ((begin_word mangle o name p).break_stack ≡ p.break_stack)
  begin_word-stacks none name p = (refl, refl)
  begin_word-stacks (some s) name p = (refl, refl)

  pub f_semicolon-some :
      (q : Parser) (l : Label) (ls : List Label)
      → q.label_stack ≡ l ∷ ls
      → f_semicolon mangle q
        ≡ some
            (end_word mangle q.current_definition l (record q { label_stack = ls; exit_label = 0 }))
  f_semicolon-some q l ls h = rw h

  -- What closes a definition whose end has this label.
  pub semicolon-Leaves :
      (q : Parser) (l : Label) {ls bs : List Label}
      → q.label_stack ≡ l ∷ ls
      → q.break_stack ≡ bs
      → (v : Leaves (f_semicolon mangle q) ls bs) × (v.parser.current_definition ≡ none)
        × (v.parser.exit_label ≡ 0)
  semicolon-Leaves q l {ls} h b =
      let at_end = record q { label_stack = ls; exit_label = 0 } in
      let ended = Ended-end_word q.current_definition l at_end refl in
      (
        record {
          parser = end_word mangle q.current_definition l at_end;
          result = f_semicolon-some q l ls h;
          label_stack = ended.label_stack;
          break_stack = ended.break_stack ∙ b;
        },
        ended.current_definition,
        ended.exit_label,
      )

  pub parse_definition_balanced :
      (name : Text) (body : Statements) (p : Parser)
      → ((q : Parser) × (parse_definition mangle name body p ≡ parsed q)
          × (q.label_stack ≡ p.label_stack)
          × (q.break_stack ≡ p.break_stack)
          × (q.current_definition ≡ none)
          × (q.exit_label ≡ 0))
        ⊎ ((q : Parser) × (parse_definition mangle name body p ≡ aborted q)
            × (max_allowed_errors < q.error_count))
  unfolding parse_definition
  parse_definition_balanced name body p = elim (Bool-cases (excessive_errors p)) [
    | inl x ↦ inr (parse_error p, rw x refl, ground arith)
    | inr x ↦
        let opened = record (push_label p) { exit_label = p.label_sequence } in
        let (l, b) = begin_word-stacks (lookup mangle name p) name opened in
        elim (statements-Restores mangle body (f_definedword mangle name p) l b) [
          | given_up q e m ↦ inr (q, rw (x, e) refl, m)
          | restored q e ql qb ↦ elim (Bool-cases (excessive_errors q)) [
            | inl y ↦ inr (parse_error q, rw (x, e, y) refl, ground arith)
            | inr y ↦
                let (v, d, z) = semicolon-Leaves q p.label_sequence ql qb in
                inl (v.parser, rw (x, e, y, v.result) refl, v.label_stack, v.break_stack, d, z)
          ]
        ]
  ]
