-- ===== src/Parser/Syntax/Leaves.antt =====
-- The stacks that each handler of compiler/parser.cc leaves which closes a control structure.
use vnpforth.Prelude.{
  ◌<◌, List, ◌∷◌, Option, none, some, ◌≡◌, refl, Text, Bool-cases, inl, inr, arith,
}
use vnpforth.Opcode.{Label}
use vnpforth.Optimizer.Relocate.{get_or}
use vnpforth.Parser.{Parser, parse_error, recurse_in}
use vnpforth.Parser.Outcome.{
  Outcome, aborted, parsed, ◌>>=◌, max_allowed_errors, excessive_errors, mne,
}
use vnpforth.Parser.Control.{
  f_then_endif, f_else, f_loop, f_plus_loop, f_until, f_repeat_again, f_endof, f_endcase,
  break_with,
}
use vnpforth.Opcode.{Instruction}
use vnpforth.Symbol.{Symbol}
use vnpforth.Parser.Syntax.{
  LoopToken, loop_token, plus_loop_token, BeginEnd, until_token, repeat_token, again_token,
  close_do, close_begin_loop,
}

-- A handler that comes to an end, with these stacks.
pub record Leaves (o : Option Parser) (labels breaks : List Label) : Type 0 where
  pub parser : Parser
  pub result : o ≡ some parser
  pub label_stack : parser.label_stack ≡ labels
  pub break_stack : parser.break_stack ≡ breaks

-- Actions that leave these stacks, or at which the parse is given up, with more errors counted than
-- are allowed.
pub data Restores (o : Outcome) (labels breaks : List Label) : Type 0 where
  restored :
      (q : Parser)
      → o ≡ parsed q
      → q.label_stack ≡ labels
      → q.break_stack ≡ breaks
      → Restores o labels breaks
  given_up :
      (q : Parser) → o ≡ aborted q → max_allowed_errors < q.error_count → Restores o labels breaks

-- What follows actions that leave these stacks.
pub Restores-bind :
    {o : Outcome} (f : Parser → Outcome) (ls bs : List Label) {ls' bs' : List Label}
    → Restores o ls bs
    → ((q : Parser) → q.label_stack ≡ ls → q.break_stack ≡ bs → Restores (f q) ls' bs')
    → Restores (o >>= f) ls' bs'
Restores-bind f ls bs (restored q e h b) k = rw e (k q h b)
Restores-bind f ls bs (given_up q e m) k = given_up q (rw e refl) m

pub Restores-mne :
    (p : Parser) {o : Option Parser} {ls bs : List Label}
    → Leaves o ls bs
    → Restores (mne p o) ls bs
Restores-mne p v = elim (Bool-cases (excessive_errors p)) [
  | inl h ↦ given_up (parse_error p) (rw h refl) (ground arith)
  | inr h ↦ restored v.parser (rw (h, v.result) refl) v.label_stack v.break_stack
]

-- What follows an action whose handler cannot fail.
pub Restores-mne_bind :
    (p x : Parser) (f : Parser → Outcome) {ls bs : List Label}
    → Restores (f x) ls bs
    → Restores (mne p (some x) >>= f) ls bs
Restores-mne_bind p x f v = elim (Bool-cases (excessive_errors p)) [
  | inl h ↦ given_up (parse_error p) (rw h refl) (ground arith)
  | inr h ↦ rw h v
]

module _ (mangle : Text → Text) (p : Parser) where
  pub Leaves-f_then_endif :
      {l : Label} {ls bs : List Label}
      → p.label_stack ≡ l ∷ ls
      → p.break_stack ≡ bs
      → Leaves (f_then_endif mangle p) ls bs
  Leaves-f_then_endif h b = record {
    parser = get_or (f_then_endif mangle p) p;
    result = rw h;
    label_stack = rw h;
    break_stack = rw (h, b);
  }

  pub Leaves-f_else :
      {l : Label} {ls bs : List Label}
      → p.label_stack ≡ l ∷ ls
      → p.break_stack ≡ bs
      → Leaves (f_else mangle p) (p.label_sequence ∷ ls) bs
  Leaves-f_else h b = record {
    parser = get_or (f_else mangle p) p;
    result = rw h;
    label_stack = rw h;
    break_stack = rw (h, b);
  }

  pub Leaves-close_do :
      (t : LoopToken) {e s o k : Label} {ls bs : List Label}
      → p.label_stack ≡ e ∷ s ∷ o ∷ ls
      → p.break_stack ≡ k ∷ bs
      → Leaves (close_do mangle t p) ls bs
  Leaves-close_do loop_token h b = record {
    parser = get_or (f_loop mangle p) p;
    result = rw (h, b);
    label_stack = rw (h, b);
    break_stack = rw (h, b);
  }
  Leaves-close_do plus_loop_token h b = record {
    parser = get_or (f_plus_loop mangle p) p;
    result = rw (h, b);
    label_stack = rw (h, b);
    break_stack = rw (h, b);
  }

  pub Leaves-close_begin_loop :
      (t : BeginEnd) {e s k : Label} {ls bs : List Label}
      → p.label_stack ≡ e ∷ s ∷ ls
      → p.break_stack ≡ k ∷ bs
      → Leaves (close_begin_loop mangle t p) ls bs
  Leaves-close_begin_loop until_token h b = record {
    parser = get_or (f_until mangle p) p;
    result = rw (h, b);
    label_stack = rw (h, b);
    break_stack = rw (h, b);
  }
  Leaves-close_begin_loop repeat_token h b = record {
    parser = get_or (f_repeat_again mangle p) p;
    result = rw (h, b);
    label_stack = rw (h, b);
    break_stack = rw (h, b);
  }
  Leaves-close_begin_loop again_token h b = record {
    parser = get_or (f_repeat_again mangle p) p;
    result = rw (h, b);
    label_stack = rw (h, b);
    break_stack = rw (h, b);
  }

  pub Leaves-f_endof :
      {l k : Label} {ls bs : List Label}
      → p.label_stack ≡ l ∷ ls
      → p.break_stack ≡ k ∷ bs
      → Leaves (f_endof mangle p) ls (k ∷ bs)
  Leaves-f_endof h b = record {
    parser = get_or (f_endof mangle p) p;
    result = rw (h, b);
    label_stack = rw (h, b);
    break_stack = rw (h, b);
  }

  pub Leaves-f_endcase :
      {l k : Label} {ls bs : List Label}
      → p.label_stack ≡ l ∷ ls
      → p.break_stack ≡ k ∷ bs
      → Leaves (f_endcase mangle p) ls bs
  Leaves-f_endcase h b = record {
    parser = get_or (f_endcase mangle p) p;
    result = rw (h, b);
    label_stack = rw (h, b);
    break_stack = rw (h, b);
  }

  pub Leaves-break_with :
      (code : Label → List Instruction) (o : Option (Label × List Label)) {ls bs : List Label}
      → p.label_stack ≡ ls
      → p.break_stack ≡ bs
      → Leaves (some (break_with mangle code p o)) ls bs
  Leaves-break_with code none h b = record {
    parser = _;
    result = refl;
    label_stack = h;
    break_stack = b;
  }
  Leaves-break_with code (some (l, _)) h b = record {
    parser = _;
    result = refl;
    label_stack = h;
    break_stack = b;
  }

  pub Leaves-recurse_in :
      (o : Option Symbol) {ls bs : List Label}
      → p.label_stack ≡ ls
      → p.break_stack ≡ bs
      → Leaves (some (recurse_in mangle o p)) ls bs
  Leaves-recurse_in none h b = record {
    parser = _;
    result = refl;
    label_stack = h;
    break_stack = b;
  }
  Leaves-recurse_in (some s) h b = record {
    parser = _;
    result = refl;
    label_stack = h;
    break_stack = b;
  }
