-- ===== src/Parser/Control.antt =====
-- compiler/parser.cc: the terminal handlers of the control structures. They keep the labels of open
-- structures on the label stack and the labels that LEAVE and WHILE go to on the break stack.
use vnpforth.Prelude.{◌+◌, List, [], ◌∷◌, Option, none, some, Text, ◌>>=◌}
use vnpforth.Opcode.{
  r0, r1, data_stack, return_stack, Label, Instruction, label, push, pop, add_value, add_register,
  subtract_register, jump, jump_zero, jump_non_zero, jump_less_zero, jump_greater_equal_zero,
  jump_equal, jump_not_equal,
}
use vnpforth.Parser.{
  Parser, emits, parse_error, push_label, push_break, pop_label, pop_break, top_of, detect_main,
}

module _ (mangle : Text → Text) where
  abbrev pub f_if : Parser → Parser
  f_if p =
      emits (pop r0 data_stack ∷ jump_zero r0 p.label_sequence ∷ [])
        (detect_main mangle (push_label p))

  abbrev pub f_then_endif : Parser → Option Parser
  f_then_endif p = do (l, q) ← pop_label (detect_main mangle p); some (emits (label l ∷ []) q)

  abbrev pub f_else : Parser → Option Parser
  f_else p = do
    (over_label, q) ← pop_label p
    some (emits (jump q.label_sequence ∷ label over_label ∷ []) (detect_main mangle (push_label q)))

  -- Behind the limit and the index, which DO and ?DO pop: the loop's start.
  abbrev pub enter_loop : Parser → Parser
  enter_loop p =
      let q = push_label (emits (push r0 return_stack ∷ push r1 return_stack ∷ []) p) in
      push_break (emits (label p.label_sequence ∷ []) q)

  abbrev pub pop_limits : List Instruction
  pop_limits = pop r1 data_stack ∷ pop r0 data_stack ∷ []

  abbrev pub f_do : Parser → Parser
  f_do p = enter_loop (push_label (emits pop_limits (detect_main mangle p)))

  abbrev pub f_query_do : Parser → Parser
  f_query_do p = enter_loop (
      emits (jump_equal r0 r1 p.label_sequence ∷ [])
        (push_label (emits pop_limits (detect_main mangle p))))

  -- The end of both loops: behind the jump to the start, the labels of the end.
  abbrev pub leave_loop : Label → Parser → Option Parser
  leave_loop end_label p = do
    (over, q) ←
        pop_label (emits (label end_label ∷ pop r0 return_stack ∷ pop r0 return_stack ∷ []) p)
    (b, r) ← pop_break (emits (label over ∷ []) q)
    some r

  abbrev pub loop_code : List Instruction
  loop_code =
      pop r1 return_stack
      ∷ add_value r1 1
      ∷ pop r0 return_stack
      ∷ push r0 return_stack
      ∷ push r1 return_stack
      ∷ []

  abbrev pub f_loop : Parser → Option Parser
  f_loop p = do
    (end_label, q) ← pop_label p
    (start, r) ← pop_label (emits loop_code (detect_main mangle q))
    leave_loop end_label (emits (subtract_register r1 r0 ∷ jump_non_zero r1 start ∷ []) r)

  -- Both directions of +LOOP: the first to the label `reverse`, the second behind it.
  abbrev pub plus_loop_code : Label → Label → Label → List Instruction
  plus_loop_code reverse start end_label =
      pop r0 data_stack
      ∷ pop r1 return_stack
      ∷ add_register r1 r0
      ∷ jump_less_zero r0 reverse
      ∷ pop r0 return_stack
      ∷ push r0 return_stack
      ∷ push r1 return_stack
      ∷ subtract_register r1 r0
      ∷ jump_less_zero r1 start
      ∷ jump end_label
      ∷ label reverse
      ∷ pop r0 return_stack
      ∷ push r0 return_stack
      ∷ push r1 return_stack
      ∷ subtract_register r1 r0
      ∷ jump_greater_equal_zero r1 start
      ∷ []

  abbrev pub f_plus_loop : Parser → Option Parser
  f_plus_loop p = do
    (end_label, q) ← pop_label p
    (start, r) ← pop_label (detect_main mangle q)
    leave_loop end_label (
        emits (plus_loop_code r.label_sequence start end_label)
          (record r { label_sequence = r.label_sequence + 1 }))

  -- Outside of a loop an error; else the code with the loop's end.
  abbrev pub break_with : (Label → List Instruction) → Parser → Option (Label × List Label) → Parser
  break_with code p none = parse_error p
  break_with code p (some (l, _)) = emits (code l) (detect_main mangle p)

  abbrev pub leave_code : Label → List Instruction
  leave_code l = jump l ∷ []

  abbrev pub query_leave_code : Label → List Instruction
  query_leave_code l = pop r0 data_stack ∷ jump_non_zero r0 l ∷ []

  abbrev pub while_code : Label → List Instruction
  while_code l = pop r0 data_stack ∷ jump_zero r0 l ∷ []

  abbrev pub f_leave : Parser → Parser
  f_leave p = break_with leave_code p (top_of p.break_stack)

  abbrev pub f_query_leave : Parser → Parser
  f_query_leave p = break_with query_leave_code p (top_of p.break_stack)

  abbrev pub f_while : Parser → Parser
  f_while p = break_with while_code p (top_of p.break_stack)

  abbrev pub f_begin : Parser → Parser
  f_begin p =
      let q = push_label (detect_main mangle p) in
      push_break (emits (label p.label_sequence ∷ []) q)

  abbrev pub close_begin : Label → Parser → Option Parser
  close_begin end_label p = do (b, q) ← pop_break (emits (label end_label ∷ []) p); some q

  abbrev pub f_until : Parser → Option Parser
  f_until p = do
    (end_label, q) ← pop_label p
    (start, r) ← pop_label (emits (pop r0 data_stack ∷ []) (detect_main mangle q))
    close_begin end_label (emits (jump_zero r0 start ∷ []) r)

  abbrev pub f_repeat_again : Parser → Option Parser
  f_repeat_again p = do
    (end_label, q) ← pop_label p
    (start, r) ← pop_label (detect_main mangle q)
    close_begin end_label (emits (jump start ∷ []) r)

  abbrev pub f_case : Parser → Parser
  f_case p = push_break (detect_main mangle p)

  abbrev pub f_of : Parser → Parser
  f_of p =
      let q = push_label (
        emits (pop r1 data_stack ∷ pop r0 data_stack ∷ push r0 data_stack ∷ [])
          (detect_main mangle p)) in
      emits (jump_not_equal r0 r1 p.label_sequence ∷ []) q

  abbrev pub f_endof : Parser → Option Parser
  f_endof p = do
    (over, q) ← top_of p.break_stack
    (l, r) ← pop_label (detect_main mangle p)
    some (emits (jump over ∷ label l ∷ []) r)

  abbrev pub f_endcase : Parser → Option Parser
  f_endcase p = do
    (l, q) ← pop_label (detect_main mangle p)
    (b, r) ← pop_break (emits (label l ∷ []) q)
    some (emits (pop r0 data_stack ∷ []) r)
