-- ===== src/Parser/Emission/Structures.antt =====
-- The labels that a control structure of compiler/parser.cc emits around its body.
use vnpforth.Prelude.{◌+◌, ◌≤◌, ◌<◌, List, ◌∷◌, some, ◌==◌, Text, ◌≡◌, ◌∙◌, sym, refl, arith}
use mathlib.Core.Path.{subst}
use vnpforth.Opcode.{Label}
use vnpforth.Parser.{Parser}
use vnpforth.Parser.Outcome.{
  Outcome, aborted, parsed, ◌>>=◌, mne, mne-eq, mne_bind-eq, >>=-eq-parsed,
}
use vnpforth.Parser.Control.{f_if, f_of}
use vnpforth.Parser.Syntax.{
  Statements, DoToken, LoopToken, loop_token, plus_loop_token, open_do, then_endif_action,
  else_action, of_action, endof_action, do_action, loop_action, parse_statements,
}
use vnpforth.Parser.Syntax.Leaves.{Restores, restored, given_up, Restores-mne, Leaves-f_else}
use vnpforth.Parser.Syntax.Balanced.{statements-Restores}
use vnpforth.Parser.Emission.{
  one_if, Step, Closes-Step, Emits, Emits-none, Emits-then, Around, Emits-Around,
}
use vnpforth.Parser.Emission.Steps.{
  Step-f_if, Step-f_of, Step-open_do, Closes-f_then_endif, Closes-f_else, taken_by, reverse_of,
  Closes-close_do, Closes-f_endof,
}

-- The one label that a structure emits is the one that it takes first.
pub Around-one :
    (p p' r q : Parser) (n : Label)
    → p.label_sequence ≤ n
    → n < p'.label_sequence
    → p'.label_sequence ≤ r.label_sequence
    → r.label_sequence ≤ q.label_sequence
    → Around p p' r q (λ l. 0 + one_if (n == l))
Around-one p p' r q n a b c d = record {
  not_below = λ l h. ground arith;
  not_inside = λ l h k. ground arith;
  not_beyond = λ l h. ground arith;
  at_most_once = λ l. ground arith;
}

pub Around-begin :
    (p p' r q : Parser)
    → p'.label_sequence ≡ p.label_sequence + 2
    → p'.label_sequence ≤ r.label_sequence
    → q.label_sequence ≡ r.label_sequence + 0
    → Around p p' r q (λ l. one_if (p.label_sequence == l) + one_if (p.label_sequence + 1 == l))
Around-begin p p' r q a b c = record {
  not_below = λ l h. ground arith;
  not_inside = λ l h k. ground arith;
  not_beyond = λ l h. ground arith;
  at_most_once = λ l. ground arith;
}

module _ (mangle : Text → Text) where
  Around-do :
      (t : LoopToken) (p p' r q : Parser)
      → p'.label_sequence ≡ p.label_sequence + 3
      → p'.label_sequence ≤ r.label_sequence
      → q.label_sequence ≡ r.label_sequence + taken_by mangle r t
      → Around p p' r q (λ l.
        one_if (p.label_sequence + 1 == l)
        + (one_if (p.label_sequence + 1 + 1 == l)
            + one_if (p.label_sequence == l)
            + reverse_of mangle r t l))
  Around-do loop_token p p' r q a b c = record {
    not_below = λ l h. ground arith;
    not_inside = λ l h k. ground arith;
    not_beyond = λ l h. ground arith;
    at_most_once = λ l. ground arith;
  }
  Around-do plus_loop_token p p' r q a b c = record {
    not_below = λ l h. ground arith;
    not_inside = λ l h k. ground arith;
    not_beyond = λ l h. ground arith;
    at_most_once = λ l. ground arith;
  }

  pub leaf : (p x q : Parser) → Step p x 0 (λ l. 0) → mne p (some x) ≡ parsed q → Emits p q
  leaf p x q s e =
      Emits-none
        (Closes-Step (record { parser = x; result = refl; step = s }) (mne-eq p (some x) e))

  pub Restores-stacks :
      {o : Outcome} {ls bs : List Label} {q : Parser}
      → Restores o ls bs
      → o ≡ parsed q
      → (q.label_stack ≡ ls) × (q.break_stack ≡ bs)
  Restores-stacks {o} {ls} {bs} {q} (restored x f h b) e =
      let same : parsed x ≡ parsed q = sym f ∙ e in
      let same' : x ≡ q = cc in
      subst (λ (y : Parser). (y.label_stack ≡ ls) × (y.break_stack ≡ bs)) same' (h, b)
  Restores-stacks {o} {ls} {bs} {q} (given_up x f m) e =
      absurd (let same : aborted x ≡ parsed q = sym f ∙ e in cc)

  pub statements_stacks :
      (s : Statements) (p q : Parser)
      → parse_statements mangle s p ≡ parsed q
      → (q.label_stack ≡ p.label_stack) × (q.break_stack ≡ p.break_stack)
  statements_stacks s p q e = Restores-stacks (statements-Restores mangle s p refl refl) e

  -- IF with ELSE: the label of IF is emitted at ELSE, and the label that ELSE takes at THEN.
  pub else-Emits :
      (p r u t q : Parser)
      → r.label_stack ≡ p.label_sequence ∷ p.label_stack
      → Emits (f_if mangle p) r
      → else_action mangle r ≡ parsed u
      → Emits u t
      → t.label_stack ≡ u.label_stack
      → then_endif_action mangle t ≡ parsed q
      → Emits p q
  else-Emits p r u t q h inner eu other ht ec =
      let n = p.label_sequence in
      let m = r.label_sequence in
      let middle = record u { label_sequence = m } in
      let turn = Closes-Step (Closes-f_else mangle r h) (mne-eq r _ eu) in
      let (hu, bu) = Restores-stacks (Restores-mne r (Leaves-f_else mangle r h refl)) eu in
      let close = Closes-Step (Closes-f_then_endif mangle t (ht ∙ hu)) (mne-eq t _ ec) in
      let first : Emits p middle =
        Emits-Around p (f_if mangle p) r middle 1 0 (λ l. 0) (λ l. one_if (n == l))
          (Step-f_if mangle p) inner (record { sequence = omega arith; count = turn.count })
          (Around-one p (f_if mangle p) r middle n (omega arith) (omega arith) inner.grows
            (omega arith)) in
      let second : Emits middle q =
        Emits-Around middle u t q 1 0 (λ l. 0) (λ l. one_if (m == l))
          (record { sequence = turn.sequence; count = λ l. omega arith }) other close
          (Around-one middle u t q m (omega arith) (omega (arith, turn.sequence)) other.grows
            (omega (arith, close.sequence))) in
      Emits-then first second

  -- OF and ENDOF, and DO and LOOP, around a body.
  pub of-Emits :
      (body : Statements) (p q : Parser) {k : Label} {bs : List Label}
      → ((r : Parser)
          → parse_statements mangle body (f_of mangle p) ≡ parsed r
          → Emits (f_of mangle p) r)
      → p.break_stack ≡ k ∷ bs
      → (of_action mangle p >>= λ r. parse_statements mangle body r >>= endof_action mangle)
        ≡ parsed q
      → Emits p q
  of-Emits body p q ih b e =
      let n = p.label_sequence in
      let opened = f_of mangle p in
      let f =
        mne_bind-eq p opened (λ r. parse_statements mangle body r >>= endof_action mangle) e in
      let (r, er, ec) =
        >>=-eq-parsed (parse_statements mangle body opened) (endof_action mangle) f in
      let (h, br) = statements_stacks body opened r er in
      let inner = ih r er in
      let close = Closes-Step (Closes-f_endof mangle r h (br ∙ b)) (mne-eq r _ ec) in
      Emits-Around p opened r q 1 0 (λ l. 0) (λ l. one_if (n == l)) (Step-f_of mangle p) inner close
        (Around-one p opened r q n (omega arith) (omega arith) inner.grows
          (omega (arith, close.sequence)))

  pub do-Emits :
      (d : DoToken) (body : Statements) (t : LoopToken) (p q : Parser)
      → ((r : Parser)
          → parse_statements mangle body (open_do mangle d p) ≡ parsed r
          → Emits (open_do mangle d p) r)
      → (open_do mangle d p).label_stack
        ≡ (p.label_sequence + 1 + 1) ∷ (p.label_sequence + 1) ∷ p.label_sequence ∷ p.label_stack
      → (open_do mangle d p).break_stack ≡ (p.label_sequence + 1 + 1) ∷ p.break_stack
      → (do_action mangle d p >>= λ r. parse_statements mangle body r >>= loop_action mangle t)
        ≡ parsed q
      → Emits p q
  do-Emits d body t p q ih hd bd e =
      let opened = open_do mangle d p in
      let f =
        mne_bind-eq p opened (λ r. parse_statements mangle body r >>= loop_action mangle t) e in
      let (r, er, ec) =
        >>=-eq-parsed (parse_statements mangle body opened) (loop_action mangle t) f in
      let (h, b) = statements_stacks body opened r er in
      let inner = ih r er in
      let start = Step-open_do mangle p d in
      let close = Closes-Step (Closes-close_do mangle r t (h ∙ hd) (b ∙ bd)) (mne-eq r _ ec) in
      Emits-Around p opened r q 3 (taken_by mangle r t) _ _ start inner close
        (Around-do t p opened r q start.sequence inner.grows close.sequence)
