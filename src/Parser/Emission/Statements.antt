-- ===== src/Parser/Emission/Statements.antt =====
-- The labels that the statements of compiler/forth.y emit.
use vnpforth.Prelude.{◌+◌, List, ◌∷◌, ◌==◌, Text, ◌≡◌, ◌∙◌, refl, arith}
use vnpforth.Opcode.{Label}
use vnpforth.Parser.{Parser, top_of, f_word, f_exit}
use mathlib.Core.Path.{subst}
use vnpforth.Parser.Outcome.{Outcome, parsed, ◌>>=◌, mne-eq, mne_bind-eq, >>=-eq-parsed}
use vnpforth.Parser.Control.{f_if, f_case, f_of, f_begin, leave_code, query_leave_code, while_code}
use vnpforth.Parser.Syntax.{
  Statement, Statements, CaseBody, word_statement, exit, recurse, leave, query_leave, begin_while,
  if_then, if_else, do_loop, begin_loop, case_statement, empty, then_statement, one_clause,
  then_clause, do_token, query_do_token, open_do, then_endif_action, else_action, until_action,
  endcase_action, of_action, endof_action, parse_statement, parse_statements, parse_clauses,
}
use vnpforth.Parser.Syntax.Balanced.{clauses-Restores}
use vnpforth.Parser.Emission.{one_if, Closes-Step, Emits, Emits-none, Emits-then, Emits-Around}
use vnpforth.Parser.Emission.Steps.{
  Step-f_if, Step-f_case, Step-f_begin, Closes-f_then_endif, Closes-close_begin_loop,
  Closes-f_endcase, Step-f_exit, Step-recurse_in, Step-f_word, Step-break_with, Unlabelled-leave,
  Unlabelled-query_leave, Unlabelled-while,
}
use vnpforth.Parser.Emission.Structures.{
  Around-one, Around-begin, leaf, Restores-stacks, statements_stacks, else-Emits, of-Emits,
  do-Emits,
}

module _ (mangle : Text → Text) where
  mutual
    unfolding parse_statement

    statement-Emits :
        (s : Statement) (p q : Parser) → parse_statement mangle s p ≡ parsed q → Emits p q
    statement-Emits (word_statement name) p q e =
        leaf mangle p (f_word mangle name p) q (Step-f_word mangle p name) e
    statement-Emits exit p q e = leaf mangle p (f_exit mangle p) q (Step-f_exit mangle p) e
    statement-Emits recurse p q e =
        leaf mangle p _ q (Step-recurse_in mangle p p.current_definition) e
    statement-Emits leave p q e =
        leaf mangle p _ q
          (Step-break_with mangle p (leave_code mangle) (top_of p.break_stack)
            (Unlabelled-leave mangle p))
          e
    statement-Emits query_leave p q e =
        leaf mangle p _ q
          (Step-break_with mangle p (query_leave_code mangle) (top_of p.break_stack)
            (Unlabelled-query_leave mangle p))
          e
    statement-Emits begin_while p q e =
        leaf mangle p _ q
          (Step-break_with mangle p (while_code mangle) (top_of p.break_stack)
            (Unlabelled-while mangle p))
          e
    statement-Emits (if_then body) p q e =
        let n = p.label_sequence in
        let opened = f_if mangle p in
        let f =
          mne_bind-eq p opened (λ r. parse_statements mangle body r >>= then_endif_action mangle)
            e in
        let (r, er, ec) =
          >>=-eq-parsed (parse_statements mangle body opened) (then_endif_action mangle) f in
        let (h, b) = statements_stacks mangle body opened r er in
        let inner = statements-Emits body opened r er in
        let close = Closes-Step (Closes-f_then_endif mangle r h) (mne-eq r _ ec) in
        Emits-Around p opened r q 1 0 (λ l. 0) (λ l. one_if (n == l)) (Step-f_if mangle p) inner
          close
          (Around-one p opened r q n (omega arith) (omega arith) inner.grows
            (omega (arith, close.sequence)))
    statement-Emits (if_else body other) p q e =
        let last : Parser → Outcome =
          λ u. parse_statements mangle other u >>= then_endif_action mangle in
        let rest : Parser → Outcome = λ r. else_action mangle r >>= last in
        let opened = f_if mangle p in
        let d = mne_bind-eq p opened (λ r. parse_statements mangle body r >>= rest) e in
        let (r, er, f) = >>=-eq-parsed (parse_statements mangle body opened) rest d in
        let (u, eu, g) = >>=-eq-parsed (else_action mangle r) last f in
        let (t, et, ec) =
          >>=-eq-parsed (parse_statements mangle other u) (then_endif_action mangle) g in
        else-Emits mangle p r u t q (statements_stacks mangle body opened r er).0
          (statements-Emits body opened r er) eu (statements-Emits other u t et)
          (statements_stacks mangle other u t et).0 ec
    statement-Emits (do_loop do_token body t) p q e =
        do-Emits mangle do_token body t p q (statements-Emits body (open_do mangle do_token p)) refl
          refl e
    statement-Emits (do_loop query_do_token body t) p q e =
        do-Emits mangle query_do_token body t p q
          (statements-Emits body (open_do mangle query_do_token p)) refl refl e
    statement-Emits (begin_loop body t) p q e =
        let n = p.label_sequence in
        let opened = f_begin mangle p in
        let f =
          mne_bind-eq p opened (λ r. parse_statements mangle body r >>= until_action mangle t) e in
        let (r, er, ec) =
          >>=-eq-parsed (parse_statements mangle body opened) (until_action mangle t) f in
        let (h, b) = statements_stacks mangle body opened r er in
        let inner = statements-Emits body opened r er in
        let close = Closes-Step (Closes-close_begin_loop mangle r t h b) (mne-eq r _ ec) in
        Emits-Around p opened r q 2 0 (λ l. one_if (n == l)) (λ l. one_if (n + 1 == l))
          (Step-f_begin mangle p) inner close
          (Around-begin p opened r q (omega arith) inner.grows close.sequence)
    statement-Emits (case_statement clauses last) p q e =
        let n = p.label_sequence in
        let opened = f_case mangle p in
        let rest : Parser → Outcome =
          λ r. parse_statements mangle last r >>= endcase_action mangle in
        let d = mne_bind-eq p opened (λ r. parse_clauses mangle clauses r >>= rest) e in
        let (r, er, f) = >>=-eq-parsed (parse_clauses mangle clauses opened) rest d in
        let (t, et, ec) =
          >>=-eq-parsed (parse_statements mangle last r) (endcase_action mangle) f in
        let (hr, br) =
          Restores-stacks mangle (clauses-Restores mangle clauses opened refl refl) er in
        let (ht, bt) = statements_stacks mangle last r t et in
        let inner =
          Emits-then (clauses-Emits clauses opened r refl er) (statements-Emits last r t et) in
        let close = Closes-Step (Closes-f_endcase mangle t (ht ∙ hr) (bt ∙ br)) (mne-eq t _ ec) in
        Emits-Around p opened t q 1 0 (λ l. 0) (λ l. one_if (n == l)) (Step-f_case mangle p) inner
          close
          (Around-one p opened t q n (omega arith) (omega arith) inner.grows
            (omega (arith, close.sequence)))

    pub statements-Emits :
        (s : Statements) (p q : Parser) → parse_statements mangle s p ≡ parsed q → Emits p q
    statements-Emits empty p q e =
        let same : p ≡ q = cc in
        subst (λ (x : Parser). Emits p x) same
          (Emits-none (record { sequence = omega arith; count = λ l. omega arith }))
    statements-Emits (then_statement before s) p q e =
        let (r, er, ec) =
          >>=-eq-parsed (parse_statements mangle before p) (parse_statement mangle s) e in
        Emits-then (statements-Emits before p r er) (statement-Emits s r q ec)

    clauses-Emits :
        (c : CaseBody) (p q : Parser) {k : Label} {bs : List Label}
        → p.break_stack ≡ k ∷ bs
        → parse_clauses mangle c p ≡ parsed q
        → Emits p q
    clauses-Emits (one_clause before body) p q b e =
        let rest : Parser → Outcome =
          λ r. of_action mangle r >>= λ t. parse_statements mangle body t >>= endof_action mangle in
        let (r, er, f) = >>=-eq-parsed (parse_statements mangle before p) rest e in
        Emits-then (statements-Emits before p r er) (
          of-Emits mangle body r q (statements-Emits body (f_of mangle r))
            ((statements_stacks mangle before p r er).1 ∙ b) f)
    clauses-Emits (then_clause clauses before body) p q b e =
        let rest : Parser → Outcome =
          λ r. of_action mangle r >>= λ t. parse_statements mangle body t >>= endof_action mangle in
        let (o, eo, g) =
          >>=-eq-parsed (parse_clauses mangle clauses p)
            (λ o. parse_statements mangle before o >>= rest) e in
        let (r, er, f) = >>=-eq-parsed (parse_statements mangle before o) rest g in
        let (ho, bo) = Restores-stacks mangle (clauses-Restores mangle clauses p refl b) eo in
        Emits-then (clauses-Emits clauses p o b eo) (
          Emits-then (statements-Emits before o r er) (
            of-Emits mangle body r q (statements-Emits body (f_of mangle r))
              ((statements_stacks mangle before o r er).1 ∙ bo) f))
