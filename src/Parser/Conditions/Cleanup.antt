-- ===== src/Parser/Conditions/Cleanup.antt =====
-- `parse_cleanup` of compiler/parser.cc.
use vnpforth.Prelude.{
  true, false, List, [], ◌∷◌, Option, none, some, ◌==◌, ==_iff, ◌≡◌, refl, arith,
}
use vnpforth.Optimizer.Pass.{is_some}
use vnpforth.Parser.{Parser}
use vnpforth.Parser.Conditions.{is_empty_list, parse_cleanup}

empty_list {ℓ} : {A : Type ℓ} (xs : List A) → is_empty_list xs ≡ true → xs ≡ []
empty_list [] h = refl
empty_list (a ∷ xs) h = absurd (cc)

no_value {ℓ} : {A : Type ℓ} (o : Option A) → is_some o ≡ false → o ≡ none
no_value none h = refl
no_value (some a) h = absurd (cc)

cleanup_checks :
    (p : Parser)
    → (parse_cleanup p).error_count ≡ 0
    → (is_empty_list p.label_stack ≡ true)
      × (is_empty_list p.break_stack ≡ true)
      × (is_empty_list p.cond_stack ≡ true)
      × (is_some p.current_definition ≡ false)
      × ((p.exit_label == 0) ≡ true)
cleanup_checks p h = ground arith

-- Where parse_cleanup leaves no error counted, none was counted before, the label, break and
-- condition stacks are empty, no definition is open and there is no exit label.
pub parse_cleanup-clean :
    (p : Parser)
    → (parse_cleanup p).error_count ≡ 0
    → (p.label_stack ≡ [])
      × (p.break_stack ≡ [])
      × (p.cond_stack ≡ [])
      × (p.current_definition ≡ none)
      × (p.exit_label ≡ 0)
      × (p.error_count ≡ 0)
parse_cleanup-clean p h =
    let (a, b, c, d, e) = cleanup_checks p h in
    (
      empty_list p.label_stack a,
      empty_list p.break_stack b,
      empty_list p.cond_stack c,
      no_value p.current_definition d,
      (==_iff p.exit_label 0).0 e,
      ground arith,
    )
