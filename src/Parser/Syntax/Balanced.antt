-- ===== src/Parser/Syntax/Balanced.antt =====
-- The stacks of the parser around the statements of compiler/forth.y.
use vnpforth.Prelude.{◌+◌, ◌<◌, List, ◌∷◌, ◌≡◌, refl, Text, ◌⊎◌, inl, inr}
use vnpforth.Opcode.{Label}
use vnpforth.Parser.{Parser, top_of}
use vnpforth.Parser.Outcome.{Outcome, parsed, aborted, ◌>>=◌, max_allowed_errors}
use vnpforth.Parser.Control.{f_if, f_of, f_begin, f_case, leave_code, query_leave_code, while_code}
use vnpforth.Parser.Syntax.{
  Statement, Statements, CaseBody, word_statement, exit, recurse, leave, query_leave, begin_while,
  if_then, if_else, do_loop, begin_loop, case_statement, empty, then_statement, one_clause,
  then_clause, do_token, query_do_token, open_do, then_endif_action, else_action, loop_action,
  until_action, endcase_action, of_action, endof_action, parse_statement, parse_statements,
  parse_clauses,
}
use vnpforth.Parser.Syntax.Leaves.{
  Restores, restored, given_up, Restores-bind, Restores-mne, Restores-mne_bind, Leaves-f_endcase,
  Leaves-recurse_in, Leaves-f_else, Leaves-f_endof, Leaves-close_do, Leaves-f_then_endif,
  Leaves-close_begin_loop, Leaves-break_with,
}

module _ (mangle : Text → Text) where
  -- OF, a body that leaves the stacks, and ENDOF.
  clause-Restores :
      (body : Statements) (p : Parser) {k : Label} (ls bs : List Label)
      → Restores (parse_statements mangle body (f_of mangle p)) (p.label_sequence ∷ ls) (k ∷ bs)
      → Restores
          (of_action mangle p >>= λ r. parse_statements mangle body r >>= endof_action mangle)
          ls
          (k ∷ bs)
  clause-Restores body p {k} ls bs inner =
      Restores-mne_bind p (f_of mangle p)
        (λ r. parse_statements mangle body r >>= endof_action mangle)
        (Restores-bind (endof_action mangle) (p.label_sequence ∷ ls) (k ∷ bs) inner
          (λ r hr br. Restores-mne r (Leaves-f_endof mangle r hr br)))

  mutual
    unfolding parse_statement

    statement-Restores :
        (s : Statement) (p : Parser) {ls bs : List Label}
        → p.label_stack ≡ ls
        → p.break_stack ≡ bs
        → Restores (parse_statement mangle s p) ls bs
    statement-Restores (word_statement name) p h b =
        Restores-mne p (record { parser = _; result = refl; label_stack = h; break_stack = b })
    statement-Restores exit p h b =
        Restores-mne p (record { parser = _; result = refl; label_stack = h; break_stack = b })
    statement-Restores recurse p h b =
        Restores-mne p (Leaves-recurse_in mangle p p.current_definition h b)
    statement-Restores leave p h b =
        Restores-mne p (Leaves-break_with mangle p (leave_code mangle) (top_of p.break_stack) h b)
    statement-Restores query_leave p h b =
        Restores-mne p
          (Leaves-break_with mangle p (query_leave_code mangle) (top_of p.break_stack) h b)
    statement-Restores begin_while p h b =
        Restores-mne p (Leaves-break_with mangle p (while_code mangle) (top_of p.break_stack) h b)
    statement-Restores (if_then body) p {ls} {bs} h b =
        Restores-mne_bind p (f_if mangle p)
          (λ q. parse_statements mangle body q >>= then_endif_action mangle)
          (Restores-bind (then_endif_action mangle) (p.label_sequence ∷ ls) bs
            (statements-Restores body (f_if mangle p) (rw h) b)
            (λ q hq bq. Restores-mne q (Leaves-f_then_endif mangle q hq bq)))
    statement-Restores (if_else body other) p {ls} {bs} h b =
        let rest : Parser → Outcome = λ q. else_action mangle q >>= λ r.
        parse_statements mangle other r >>= then_endif_action mangle in
        Restores-mne_bind p (f_if mangle p) (λ q. parse_statements mangle body q >>= rest)
          (Restores-bind rest (p.label_sequence ∷ ls) bs
            (statements-Restores body (f_if mangle p) (rw h) b)
            (λ q hq bq.
              Restores-bind (λ r. parse_statements mangle other r >>= then_endif_action mangle)
                (q.label_sequence ∷ ls) bs (Restores-mne q (Leaves-f_else mangle q hq bq))
                (λ r hr br.
                  Restores-bind (then_endif_action mangle) (q.label_sequence ∷ ls) bs
                    (statements-Restores other r hr br)
                    (λ t ht bt. Restores-mne t (Leaves-f_then_endif mangle t ht bt)))))
    statement-Restores (do_loop do_token body l) p {ls} {bs} h b =
        let n = p.label_sequence in
        Restores-mne_bind p (open_do mangle do_token p)
          (λ q. parse_statements mangle body q >>= loop_action mangle l)
          (Restores-bind (loop_action mangle l) ((n + 1 + 1) ∷ (n + 1) ∷ n ∷ ls) ((n + 1 + 1) ∷ bs)
            (statements-Restores body (open_do mangle do_token p) (rw h) (rw b))
            (λ q hq bq. Restores-mne q (Leaves-close_do mangle q l hq bq)))
    statement-Restores (do_loop query_do_token body l) p {ls} {bs} h b =
        let n = p.label_sequence in
        Restores-mne_bind p (open_do mangle query_do_token p)
          (λ q. parse_statements mangle body q >>= loop_action mangle l)
          (Restores-bind (loop_action mangle l) ((n + 1 + 1) ∷ (n + 1) ∷ n ∷ ls) ((n + 1 + 1) ∷ bs)
            (statements-Restores body (open_do mangle query_do_token p) (rw h) (rw b))
            (λ q hq bq. Restores-mne q (Leaves-close_do mangle q l hq bq)))
    statement-Restores (begin_loop body e) p {ls} {bs} h b =
        let n = p.label_sequence in
        Restores-mne_bind p (f_begin mangle p)
          (λ q. parse_statements mangle body q >>= until_action mangle e)
          (Restores-bind (until_action mangle e) ((n + 1) ∷ n ∷ ls) ((n + 1) ∷ bs)
            (statements-Restores body (f_begin mangle p) (rw h) (rw b))
            (λ q hq bq. Restores-mne q (Leaves-close_begin_loop mangle q e hq bq)))
    statement-Restores (case_statement clauses last) p {ls} {bs} h b =
        let n = p.label_sequence in
        let rest : Parser → Outcome =
          λ q. parse_statements mangle last q >>= endcase_action mangle in
        Restores-mne_bind p (f_case mangle p) (λ q. parse_clauses mangle clauses q >>= rest)
          (Restores-bind rest (n ∷ ls) (n ∷ bs)
            (clauses-Restores clauses (f_case mangle p) (rw h) (rw b))
            (λ q hq bq.
              Restores-bind (endcase_action mangle) (n ∷ ls) (n ∷ bs)
                (statements-Restores last q hq bq)
                (λ r hr br. Restores-mne r (Leaves-f_endcase mangle r hr br))))

    pub statements-Restores :
        (s : Statements) (p : Parser) {ls bs : List Label}
        → p.label_stack ≡ ls
        → p.break_stack ≡ bs
        → Restores (parse_statements mangle s p) ls bs
    statements-Restores empty p h b = restored p refl h b
    statements-Restores (then_statement before s) p {ls} {bs} h b =
        Restores-bind (parse_statement mangle s) ls bs (statements-Restores before p h b)
          (λ q hq bq. statement-Restores s q hq bq)

    pub clauses-Restores :
        (c : CaseBody) (p : Parser) {k : Label} {ls bs : List Label}
        → p.label_stack ≡ ls
        → p.break_stack ≡ k ∷ bs
        → Restores (parse_clauses mangle c p) ls (k ∷ bs)
    clauses-Restores (one_clause before body) p {k} {ls} {bs} h b =
        Restores-bind
          (λ q. of_action mangle q >>= λ r. parse_statements mangle body r >>= endof_action mangle)
          ls (k ∷ bs) (statements-Restores before p h b)
          (λ q hq bq.
            clause-Restores body q ls bs (statements-Restores body (f_of mangle q) (rw hq) bq))
    clauses-Restores (then_clause clauses before body) p {k} {ls} {bs} h b =
        let rest : Parser → Outcome =
          λ q. of_action mangle q >>= λ r. parse_statements mangle body r >>= endof_action mangle in
        Restores-bind (λ o. parse_statements mangle before o >>= rest) ls (k ∷ bs)
          (clauses-Restores clauses p h b)
          (λ o ho bo.
            Restores-bind rest ls (k ∷ bs) (statements-Restores before o ho bo) (λ q hq bq.
              clause-Restores body q ls bs (statements-Restores body (f_of mangle q) (rw hq) bq)))

  -- For any parser, a sequence of words, control structures, EXIT and RECURSE is parsed, with no
  -- assertion failing, and leaves the label and break stacks as they were; or else the parse is
  -- given up, with more than 20 errors counted.
  pub parse_statements_balanced :
      (s : Statements) (p : Parser)
      → ((q : Parser) × (parse_statements mangle s p ≡ parsed q)
          × (q.label_stack ≡ p.label_stack)
          × (q.break_stack ≡ p.break_stack))
        ⊎ ((q : Parser) × (parse_statements mangle s p ≡ aborted q)
            × (max_allowed_errors < q.error_count))
  parse_statements_balanced s p = elim (statements-Restores s p refl refl) [
    | restored q e h b ↦ inl (q, e, h, b)
    | given_up q e m ↦ inr (q, e, m)
  ]
