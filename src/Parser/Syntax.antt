-- ===== src/Parser/Syntax.antt =====
-- compiler/forth.y: statements as the grammar derives them, and the handlers of the parser in the
-- order in which the grammar's actions call them, where no conditional directive suppresses them.
-- The statements that only add literals are left out. Each action begins with `MNE`; the actions of a
-- nonterminal have its name.
pub mod Leaves
pub mod Balanced
pub mod Definition
use vnpforth.Prelude.{Option, some, Text}
use vnpforth.Parser.{Parser, f_exit, f_recurse, f_word, f_definedword, f_semicolon}
use vnpforth.Parser.Outcome.{Outcome, parsed, ◌>>=◌, mne}
use vnpforth.Parser.Control.{
  f_if, f_then_endif, f_else, f_do, f_query_do, f_loop, f_plus_loop, f_leave, f_query_leave,
  f_while, f_begin, f_until, f_repeat_again, f_case, f_of, f_endof, f_endcase,
}

mutual
  pub data Statement : Type 0 where
    word_statement : Text → Statement
    exit recurse leave query_leave begin_while : Statement
    if_then : Statements → Statement
    if_else : Statements → Statements → Statement
    do_loop : DoToken → Statements → LoopToken → Statement
    begin_loop : Statements → BeginEnd → Statement
    case_statement : CaseBody → Statements → Statement

  pub data Statements : Type 0 where
    empty : Statements
    then_statement : Statements → Statement → Statements

  -- Clauses: what stands before OF, and up to ENDOF.
  pub data CaseBody : Type 0 where
    one_clause : Statements → Statements → CaseBody
    then_clause : CaseBody → Statements → Statements → CaseBody

  pub data DoToken : Type 0 where
    do_token query_do_token : DoToken

  pub data LoopToken : Type 0 where
    loop_token plus_loop_token : LoopToken

  pub data BeginEnd : Type 0 where
    until_token repeat_token again_token : BeginEnd

module _ (mangle : Text → Text) where
  abbrev pub open_do : DoToken → Parser → Parser
  open_do do_token p = f_do mangle p
  open_do query_do_token p = f_query_do mangle p

  abbrev pub close_do : LoopToken → Parser → Option Parser
  close_do loop_token p = f_loop mangle p
  close_do plus_loop_token p = f_plus_loop mangle p

  abbrev pub close_begin_loop : BeginEnd → Parser → Option Parser
  close_begin_loop until_token p = f_until mangle p
  close_begin_loop repeat_token p = f_repeat_again mangle p
  close_begin_loop again_token p = f_repeat_again mangle p

  abbrev pub if_action : Parser → Outcome
  if_action p = mne p (some (f_if mangle p))

  abbrev pub then_endif_action : Parser → Outcome
  then_endif_action p = mne p (f_then_endif mangle p)

  abbrev pub else_action : Parser → Outcome
  else_action p = mne p (f_else mangle p)

  abbrev pub do_action : DoToken → Parser → Outcome
  do_action d p = mne p (some (open_do d p))

  abbrev pub loop_action : LoopToken → Parser → Outcome
  loop_action l p = mne p (close_do l p)

  abbrev pub begin_action : Parser → Outcome
  begin_action p = mne p (some (f_begin mangle p))

  abbrev pub until_action : BeginEnd → Parser → Outcome
  until_action e p = mne p (close_begin_loop e p)

  abbrev pub case_action : Parser → Outcome
  case_action p = mne p (some (f_case mangle p))

  abbrev pub endcase_action : Parser → Outcome
  endcase_action p = mne p (f_endcase mangle p)

  abbrev pub of_action : Parser → Outcome
  of_action p = mne p (some (f_of mangle p))

  abbrev pub endof_action : Parser → Outcome
  endof_action p = mne p (f_endof mangle p)

  abbrev pub definedword_action : Text → Parser → Outcome
  definedword_action name p = mne p (some (f_definedword mangle name p))

  abbrev pub semicolon_action : Parser → Outcome
  semicolon_action p = mne p (f_semicolon mangle p)

  unfoldable mutual
    pub parse_statement : Statement → Parser → Outcome
    parse_statement (word_statement name) p = mne p (some (f_word mangle name p))
    parse_statement exit p = mne p (some (f_exit mangle p))
    parse_statement recurse p = mne p (some (f_recurse mangle p))
    parse_statement leave p = mne p (some (f_leave mangle p))
    parse_statement query_leave p = mne p (some (f_query_leave mangle p))
    parse_statement begin_while p = mne p (some (f_while mangle p))
    parse_statement (if_then body) p = do
      q ← if_action p
      r ← parse_statements body q
      then_endif_action r
    parse_statement (if_else body other) p = do
      q ← if_action p
      r ← parse_statements body q
      t ← else_action r
      u ← parse_statements other t
      then_endif_action u
    parse_statement (do_loop d body l) p = do
      q ← do_action d p
      r ← parse_statements body q
      loop_action l r
    parse_statement (begin_loop body e) p = do
      q ← begin_action p
      r ← parse_statements body q
      until_action e r
    parse_statement (case_statement clauses last) p = do
      q ← case_action p
      r ← parse_clauses clauses q
      t ← parse_statements last r
      endcase_action t

    pub parse_statements : Statements → Parser → Outcome
    parse_statements empty p = parsed p
    parse_statements (then_statement before s) p = parse_statements before p >>= parse_statement s

    pub parse_clauses : CaseBody → Parser → Outcome
    parse_clauses (one_clause before body) p = do
      q ← parse_statements before p
      r ← of_action q
      t ← parse_statements body r
      endof_action t
    parse_clauses (then_clause clauses before body) p = do
      o ← parse_clauses clauses p
      q ← parse_statements before o
      r ← of_action q
      t ← parse_statements body r
      endof_action t

  -- A definition by `:`.
  unfoldable pub parse_definition : Text → Statements → Parser → Outcome
  unfolding parse_statements
  parse_definition name body p = do
    q ← definedword_action name p
    r ← parse_statements body q
    semicolon_action r
