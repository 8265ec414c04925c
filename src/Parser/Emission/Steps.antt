-- ===== src/Parser/Emission/Steps.antt =====
-- The labels that each handler of compiler/parser.cc takes and emits.
use vnpforth.Prelude.{
  ℕ, ◌+◌, List, ◌∷◌, Option, none, some, ◌==◌, Text, ◌≡◌, refl, Bool-cases, inl, inr, arith,
}
use vnpforth.Opcode.{Label, Instruction}
use vnpforth.Optimizer.Relocate.{get_or}
use vnpforth.Symbol.{Symbol, is_variable_symbol, is_intconstant_symbol, is_floatconstant_symbol}
use vnpforth.Parser.{
  Parser, at_line, word_code, word_symbol, lookup, detect_main, recurse_in, f_exit, f_word,
}
use vnpforth.Parser.Control.{
  f_if, f_then_endif, f_else, f_loop, f_plus_loop, f_begin, f_until, f_repeat_again, f_case, f_of,
  f_endof, f_endcase, break_with, leave_code, query_leave_code, while_code,
}
use vnpforth.Parser.Syntax.{
  DoToken, do_token, query_do_token, LoopToken, loop_token, plus_loop_token, BeginEnd, until_token,
  repeat_token, again_token, open_do, close_do, close_begin_loop,
}
use vnpforth.Parser.Emission.{one_if, count_label, count_label-append, Step, Closes}

module _ (mangle : Text → Text) (p : Parser) where
  pub Step-f_if : Step p (f_if mangle p) 1 (λ l. 0)
  unfolding count_label
  Step-f_if = record { sequence = refl; count = λ l. grind (arith, count_label-append) }

  pub Step-f_of : Step p (f_of mangle p) 1 (λ l. 0)
  unfolding count_label
  Step-f_of = record { sequence = refl; count = λ l. grind (arith, count_label-append) }

  pub Step-f_case : Step p (f_case mangle p) 1 (λ l. 0)
  Step-f_case = record { sequence = refl; count = λ l. omega arith }

  pub Step-f_begin : Step p (f_begin mangle p) 2 (λ l. one_if (p.label_sequence == l))
  unfolding count_label
  Step-f_begin = record { sequence = omega arith; count = λ l. grind (arith, count_label-append) }

  pub Step-open_do :
      (t : DoToken) → Step p (open_do mangle t p) 3 (λ l. one_if (p.label_sequence + 1 == l))
  unfolding count_label
  Step-open_do do_token = record {
    sequence = omega arith;
    count = λ l. grind (arith, count_label-append);
  }
  Step-open_do query_do_token = record {
    sequence = omega arith;
    count = λ l. grind (arith, count_label-append);
  }

  pub Closes-f_then_endif :
      {n : Label} {ls : List Label}
      → p.label_stack ≡ n ∷ ls
      → Closes p (f_then_endif mangle p) 0 (λ l. one_if (n == l))
  unfolding count_label
  Closes-f_then_endif {n} h = record {
    parser = get_or (f_then_endif mangle p) p;
    result = rw h refl;
    step = record {
      sequence = rw h (omega arith);
      count = λ l. rw h (grind (arith, count_label-append));
    };
  }

  pub Closes-f_else :
      {n : Label} {ls : List Label}
      → p.label_stack ≡ n ∷ ls
      → Closes p (f_else mangle p) 1 (λ l. one_if (n == l))
  unfolding count_label
  Closes-f_else {n} h = record {
    parser = get_or (f_else mangle p) p;
    result = rw h refl;
    step = record {
      sequence = rw h (omega arith);
      count = λ l. rw h (grind (arith, count_label-append));
    };
  }

  -- How many labels the end of a DO loop takes, and whether a label is the one.
  abbrev pub taken_by : LoopToken → ℕ
  taken_by loop_token = 0
  taken_by plus_loop_token = 1

  abbrev pub reverse_of : LoopToken → Label → ℕ
  reverse_of loop_token l = 0
  reverse_of plus_loop_token l = one_if (p.label_sequence == l)

  pub Closes-close_do :
      (t : LoopToken) {e s o k : Label} {ls bs : List Label}
      → p.label_stack ≡ e ∷ s ∷ o ∷ ls
      → p.break_stack ≡ k ∷ bs
      → Closes p
          (close_do mangle t p)
          (taken_by t)
          (λ l. one_if (e == l) + one_if (o == l) + reverse_of t l)
  unfolding count_label
  Closes-close_do loop_token h b = record {
    parser = get_or (f_loop mangle p) p;
    result = rw (h, b) refl;
    step = record {
      sequence = rw (h, b) (omega arith);
      count = λ l. rw (h, b) (grind (arith, count_label-append));
    };
  }
  Closes-close_do plus_loop_token h b = record {
    parser = get_or (f_plus_loop mangle p) p;
    result = rw (h, b) refl;
    step = record {
      sequence = rw (h, b) (omega arith);
      count = λ l. rw (h, b) (grind (arith, count_label-append));
    };
  }

  pub Closes-close_begin_loop :
      (t : BeginEnd) {e s k : Label} {ls bs : List Label}
      → p.label_stack ≡ e ∷ s ∷ ls
      → p.break_stack ≡ k ∷ bs
      → Closes p (close_begin_loop mangle t p) 0 (λ l. one_if (e == l))
  unfolding count_label
  Closes-close_begin_loop until_token h b = record {
    parser = get_or (f_until mangle p) p;
    result = rw (h, b) refl;
    step = record {
      sequence = rw (h, b) (omega arith);
      count = λ l. rw (h, b) (grind (arith, count_label-append));
    };
  }
  Closes-close_begin_loop repeat_token h b = record {
    parser = get_or (f_repeat_again mangle p) p;
    result = rw (h, b) refl;
    step = record {
      sequence = rw (h, b) (omega arith);
      count = λ l. rw (h, b) (grind (arith, count_label-append));
    };
  }
  Closes-close_begin_loop again_token h b = record {
    parser = get_or (f_repeat_again mangle p) p;
    result = rw (h, b) refl;
    step = record {
      sequence = rw (h, b) (omega arith);
      count = λ l. rw (h, b) (grind (arith, count_label-append));
    };
  }

  pub Closes-f_endof :
      {n k : Label} {ls bs : List Label}
      → p.label_stack ≡ n ∷ ls
      → p.break_stack ≡ k ∷ bs
      → Closes p (f_endof mangle p) 0 (λ l. one_if (n == l))
  unfolding count_label
  Closes-f_endof h b = record {
    parser = get_or (f_endof mangle p) p;
    result = rw (h, b) refl;
    step = record {
      sequence = rw (h, b) (omega arith);
      count = λ l. rw (h, b) (grind (arith, count_label-append));
    };
  }

  pub Closes-f_endcase :
      {n k : Label} {ls bs : List Label}
      → p.label_stack ≡ n ∷ ls
      → p.break_stack ≡ k ∷ bs
      → Closes p (f_endcase mangle p) 0 (λ l. one_if (n == l))
  unfolding count_label
  Closes-f_endcase h b = record {
    parser = get_or (f_endcase mangle p) p;
    result = rw (h, b) refl;
    step = record {
      sequence = rw (h, b) (omega arith);
      count = λ l. rw (h, b) (grind (arith, count_label-append));
    };
  }

  -- A word, a branch out of a loop and a call emit no label.
  pub Step-f_exit : Step p (f_exit mangle p) 0 (λ l. 0)
  unfolding count_label
  Step-f_exit = record { sequence = omega arith; count = λ l. grind (arith, count_label-append) }

  pub Step-recurse_in : (o : Option Symbol) → Step p (recurse_in mangle o p) 0 (λ l. 0)
  unfolding count_label
  Step-recurse_in none = record { sequence = omega arith; count = λ l. omega arith }
  Step-recurse_in (some s) = record {
    sequence = omega arith;
    count = λ l. grind (arith, count_label-append);
  }

  word_code_unlabelled :
      (s : Symbol) (l : Label) (n : ℕ) → count_label l (at_line n (word_code mangle s)) ≡ 0
  unfolding count_label
  word_code_unlabelled s l n = elim (Bool-cases (is_variable_symbol s.kind)) [
    | inl e ↦ rw e (omega arith)
    | inr e ↦ elim (Bool-cases (is_intconstant_symbol s.kind)) [
      | inl f ↦ rw (e, f) (omega arith)
      | inr f ↦ elim (Bool-cases (is_floatconstant_symbol s.kind)) [
        | inl g ↦ rw (e, f, g) (omega arith)
        | inr g ↦ rw (e, f, g) (omega arith)
      ]
    ]
  ]

  pub Step-f_word : (name : Text) → Step p (f_word mangle name p) 0 (λ l. 0)
  Step-f_word name = record {
    sequence = omega arith;
    count = λ l.
        let q = detect_main mangle p in
        let s = word_symbol mangle name q (lookup mangle name q) in
        omega (
          arith,
          count_label-append l p.opcodes (at_line p.line_number (word_code mangle s)),
          word_code_unlabelled s l p.line_number,
        );
  }

  -- The code with the loop's end holds no label.
  abbrev pub Unlabelled : (Label → List Instruction) → Type 0
  Unlabelled code = (k l : Label) (n : ℕ) → count_label l (at_line n (code k)) ≡ 0

  pub Step-break_with :
      (code : Label → List Instruction) (o : Option (Label × List Label))
      → Unlabelled code
      → Step p (break_with mangle code p o) 0 (λ l. 0)
  Step-break_with code none u = record { sequence = omega arith; count = λ l. omega arith }
  Step-break_with code (some (k, bs)) u = record {
    sequence = omega arith;
    count = λ l. omega (
      arith,
      count_label-append l p.opcodes (at_line p.line_number (code k)),
      u k l p.line_number,
    );
  }

  pub Unlabelled-leave : Unlabelled (leave_code mangle)
  unfolding count_label
  Unlabelled-leave k l n = omega arith

  pub Unlabelled-query_leave : Unlabelled (query_leave_code mangle)
  unfolding count_label
  Unlabelled-query_leave k l n = omega arith

  pub Unlabelled-while : Unlabelled (while_code mangle)
  unfolding count_label
  Unlabelled-while k l n = omega arith
