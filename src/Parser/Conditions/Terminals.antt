-- ===== src/Parser/Conditions/Terminals.antt =====
-- compiler/forth.y: the terminals with the handlers that they call, as the conditional directives
-- suppress them. The handlers do not read what the directives keep.
use vnpforth.Prelude.{ℕ, Bool, List, Option, none, some, Text, ◌≡◌, refl, arith}
use vnpforth.Parser.{Parser, f_exit, f_recurse, f_word, f_definedword, f_semicolon}
use vnpforth.Parser.Control.{
  f_if, f_then_endif, f_else, f_leave, f_query_leave, f_while, f_begin, f_case, f_of, f_endof,
  f_endcase,
}
use vnpforth.Parser.Syntax.{
  DoToken, LoopToken, BeginEnd, open_do, close_do, close_begin_loop, do_token, query_do_token,
  loop_token, plus_loop_token, until_token, repeat_token, again_token,
}

pub data Terminal : Type 0 where
  word_token definedword_token : Text → Terminal
  semicolon_token exit_token recurse_token leave_token query_leave_token while_token : Terminal
  if_token then_endif_token else_token begin_token : Terminal
  case_token of_token endof_token endcase_token : Terminal
  open_do_token : DoToken → Terminal
  close_do_token : LoopToken → Terminal
  close_begin_token : BeginEnd → Terminal

-- The parser with other conditions.
abbrev pub conditioned : List (Bool × ℕ) → List Text → Parser → Parser
conditioned conds definitions p = record p { cond_stack = conds; definitions = definitions }

abbrev pub conditioned_result : List (Bool × ℕ) → List Text → Option Parser → Option Parser
conditioned_result conds definitions none = none
conditioned_result conds definitions (some p) = some (conditioned conds definitions p)

module _ (mangle : Text → Text) where
  abbrev pub handle : Terminal → Parser → Option Parser
  handle (word_token name) p = some (f_word mangle name p)
  handle (definedword_token name) p = some (f_definedword mangle name p)
  handle semicolon_token p = f_semicolon mangle p
  handle exit_token p = some (f_exit mangle p)
  handle recurse_token p = some (f_recurse mangle p)
  handle leave_token p = some (f_leave mangle p)
  handle query_leave_token p = some (f_query_leave mangle p)
  handle while_token p = some (f_while mangle p)
  handle if_token p = some (f_if mangle p)
  handle then_endif_token p = f_then_endif mangle p
  handle else_token p = f_else mangle p
  handle begin_token p = some (f_begin mangle p)
  handle case_token p = some (f_case mangle p)
  handle of_token p = some (f_of mangle p)
  handle endof_token p = f_endof mangle p
  handle endcase_token p = f_endcase mangle p
  handle (open_do_token d) p = some (open_do mangle d p)
  handle (close_do_token l) p = close_do mangle l p
  handle (close_begin_token e) p = close_begin_loop mangle e p

  module _ (conds : List (Bool × ℕ)) (definitions : List Text) where
    abbrev Independent : (Parser → Option Parser) → Parser → Type 0
    Independent f p =
        f (conditioned conds definitions p) ≡ conditioned_result conds definitions (f p)

    pub handle-conditioned : (t : Terminal) (p : Parser) → Independent (handle t) p
    handle-conditioned (word_token name) p = refl
    handle-conditioned (definedword_token name) p = ground arith
    handle-conditioned semicolon_token p = ground arith
    handle-conditioned exit_token p = refl
    handle-conditioned recurse_token p = ground arith
    handle-conditioned leave_token p = ground arith
    handle-conditioned query_leave_token p = ground arith
    handle-conditioned while_token p = ground arith
    handle-conditioned if_token p = refl
    handle-conditioned then_endif_token p = ground arith
    handle-conditioned else_token p = ground arith
    handle-conditioned begin_token p = refl
    handle-conditioned case_token p = refl
    handle-conditioned of_token p = refl
    handle-conditioned endof_token p = ground arith
    handle-conditioned endcase_token p = ground arith
    handle-conditioned (open_do_token do_token) p = refl
    handle-conditioned (open_do_token query_do_token) p = refl
    handle-conditioned (close_do_token loop_token) p = ground arith
    handle-conditioned (close_do_token plus_loop_token) p = ground arith
    handle-conditioned (close_begin_token until_token) p = ground arith
    handle-conditioned (close_begin_token repeat_token) p = ground arith
    handle-conditioned (close_begin_token again_token) p = ground arith
