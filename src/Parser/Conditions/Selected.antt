-- ===== src/Parser/Conditions/Selected.antt =====
-- The statements of compiler/forth.y as the sequence of their terminals, and a file whose
-- conditional directives select a sequence of statements.
use vnpforth.Prelude.{List, [], ◌∷◌, ◌++◌, Text, ◌≡◌, ◌∙◌, refl}
use vnpforth.Parser.{Parser}
use vnpforth.Parser.Outcome.{Outcome, failed, aborted, parsed, ◌>>=◌, mne}
use vnpforth.Parser.Syntax.{
  Statement, Statements, CaseBody, word_statement, exit, recurse, leave, query_leave, begin_while,
  if_then, if_else, do_loop, begin_loop, case_statement, empty, then_statement, one_clause,
  then_clause, parse_statement, parse_statements, parse_clauses,
}
use vnpforth.Parser.Conditions.Terminals.{
  Terminal, word_token, exit_token, recurse_token, leave_token, query_leave_token, while_token,
  if_token, then_endif_token, else_token, begin_token, case_token, of_token, endof_token,
  endcase_token, open_do_token, close_do_token, close_begin_token, handle,
}
use vnpforth.Parser.Conditions.Nested.{run_terminals, run_terminals-append}

unfoldable mutual
  pub statement_terminals : Statement → List Terminal
  statement_terminals (word_statement name) = word_token name ∷ []
  statement_terminals exit = exit_token ∷ []
  statement_terminals recurse = recurse_token ∷ []
  statement_terminals leave = leave_token ∷ []
  statement_terminals query_leave = query_leave_token ∷ []
  statement_terminals begin_while = while_token ∷ []
  statement_terminals (if_then body) =
      if_token ∷ (statements_terminals body ++ then_endif_token ∷ [])
  statement_terminals (if_else body other) =
      if_token
      ∷ (statements_terminals body
          ++ else_token ∷ (statements_terminals other ++ then_endif_token ∷ []))
  statement_terminals (do_loop d body l) =
      open_do_token d ∷ (statements_terminals body ++ close_do_token l ∷ [])
  statement_terminals (begin_loop body e) =
      begin_token ∷ (statements_terminals body ++ close_begin_token e ∷ [])
  statement_terminals (case_statement clauses last) =
      case_token ∷ (clauses_terminals clauses ++ (statements_terminals last ++ endcase_token ∷ []))

  pub statements_terminals : Statements → List Terminal
  statements_terminals empty = []
  statements_terminals (then_statement before s) =
      statements_terminals before ++ statement_terminals s

  pub clauses_terminals : CaseBody → List Terminal
  clauses_terminals (one_clause before body) =
      statements_terminals before ++ of_token ∷ (statements_terminals body ++ endof_token ∷ [])
  clauses_terminals (then_clause clauses before body) =
      clauses_terminals clauses
      ++ (statements_terminals before ++ of_token ∷ (statements_terminals body ++ endof_token ∷ []))

bind-ap :
    (o : Outcome) (f g : Parser → Outcome) → ((q : Parser) → f q ≡ g q) → (o >>= f) ≡ (o >>= g)
bind-ap failed f g e = refl
bind-ap (aborted p) f g e = refl
bind-ap (parsed p) f g e = e p

module _ (mangle : Text → Text) where
  -- A terminal, the last one or with others behind it, and a sequence with others behind it.
  run-last :
      (t : Terminal) (p : Parser) → run_terminals mangle (t ∷ []) p ≡ mne p (handle mangle t p)
  unfolding run_terminals
  run-last t p = go (mne p (handle mangle t p))
    where
      go : (o : Outcome) → (o >>= run_terminals mangle []) ≡ o
      go failed = refl
      go (aborted q) = refl
      go (parsed q) = refl

  run-first :
      (t : Terminal) (us : List Terminal) (g : Parser → Outcome) (p : Parser)
      → ((q : Parser) → run_terminals mangle us q ≡ g q)
      → run_terminals mangle (t ∷ us) p ≡ (mne p (handle mangle t p) >>= g)
  unfolding run_terminals
  run-first t us g p e = bind-ap (mne p (handle mangle t p)) (run_terminals mangle us) g e

  run-then :
      (ts us : List Terminal) (o : Outcome) (g : Parser → Outcome) (p : Parser)
      → run_terminals mangle ts p ≡ o
      → ((q : Parser) → run_terminals mangle us q ≡ g q)
      → run_terminals mangle (ts ++ us) p ≡ (o >>= g)
  run-then ts us o g p e f =
      run_terminals-append mangle ts us p ∙ rw e (bind-ap o (run_terminals mangle us) g f)

  mutual
    unfolding parse_statement statement_terminals run_terminals

    run-statement :
        (s : Statement) (p : Parser)
        → run_terminals mangle (statement_terminals s) p ≡ parse_statement mangle s p
    run-statement (word_statement name) p = run-last (word_token name) p
    run-statement exit p = run-last exit_token p
    run-statement recurse p = run-last recurse_token p
    run-statement leave p = run-last leave_token p
    run-statement query_leave p = run-last query_leave_token p
    run-statement begin_while p = run-last while_token p
    run-statement (if_then body) p = run-first if_token _ _ p (λ q.
        run-then (statements_terminals body) _ _ _ q (run-statements body q)
          (λ r. run-last then_endif_token r))
    run-statement (if_else body other) p = run-first if_token _ _ p (λ q.
        run-then (statements_terminals body) _ _ _ q (run-statements body q) (λ r.
          run-first else_token _ _ r (λ t.
            run-then (statements_terminals other) _ _ _ t (run-statements other t)
              (λ u. run-last then_endif_token u))))
    run-statement (do_loop d body l) p = run-first (open_do_token d) _ _ p (λ q.
        run-then (statements_terminals body) _ _ _ q (run-statements body q)
          (λ r. run-last (close_do_token l) r))
    run-statement (begin_loop body e) p = run-first begin_token _ _ p (λ q.
        run-then (statements_terminals body) _ _ _ q (run-statements body q)
          (λ r. run-last (close_begin_token e) r))
    run-statement (case_statement clauses last) p = run-first case_token _ _ p (λ q.
        run-then (clauses_terminals clauses) _ _ _ q (run-clauses clauses q) (λ r.
          run-then (statements_terminals last) _ _ _ r (run-statements last r)
            (λ t. run-last endcase_token t)))

    run-statements :
        (s : Statements) (p : Parser)
        → run_terminals mangle (statements_terminals s) p ≡ parse_statements mangle s p
    run-statements empty p = refl
    run-statements (then_statement before s) p =
        run-then (statements_terminals before) _ _ _ p (run-statements before p)
          (λ q. run-statement s q)

    run-clauses :
        (c : CaseBody) (p : Parser)
        → run_terminals mangle (clauses_terminals c) p ≡ parse_clauses mangle c p
    run-clauses (one_clause before body) p =
        run-then (statements_terminals before) _ _ _ p (run-statements before p) (λ q.
          run-first of_token _ _ q (λ r.
            run-then (statements_terminals body) _ _ _ r (run-statements body r)
              (λ t. run-last endof_token t)))
    run-clauses (then_clause clauses before body) p =
        run-then (clauses_terminals clauses) _ _ _ p (run-clauses clauses p) (λ o.
          run-then (statements_terminals before) _ _ _ o (run-statements before o) (λ q.
            run-first of_token _ _ q (λ r.
              run-then (statements_terminals body) _ _ _ r (run-statements body r)
                (λ t. run-last endof_token t))))
