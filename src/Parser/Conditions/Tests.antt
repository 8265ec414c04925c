-- ===== src/Parser/Conditions/Tests.antt =====
-- Tests of the conditional directives, and witnesses of the theorems about them.
use vnpforth.Prelude.{ℕ, [], ◌∷◌, none, false, true, codes, ◌≡◌, refl}
use vnpforth.Mangler.{mangle}
use vnpforth.Parser.{Parser}
use vnpforth.Parser.Outcome.{Outcome, failed, aborted, parsed}
use vnpforth.Parser.Tests.{fresh}
use vnpforth.Parser.Conditions.Terminals.{
  word_token, if_token, else_token, then_endif_token, leave_token,
}
use vnpforth.Parser.Conditions.Nested.{
  Blocks, done, terminal, conditional, conditional_else, run_blocks, run_terminals, selected,
}
use vnpforth.Parser.Syntax.{Statements, empty, then_statement, if_else, word_statement}
use vnpforth.Parser.Conditions.Cleanup.{parse_cleanup-clean}

-- if [IFDEF] Linux a [IFUNDEF] linux leave [THEN] else [ELSE] leave [THEN] then
abbrev file : Blocks
file = terminal if_token (
    conditional_else (codes "[IFDEF] Linux") false
      (terminal (word_token (codes "a")) (
        conditional (codes "[IFUNDEF]  linux ") true (terminal leave_token done)
          (terminal else_token done)))
      (terminal leave_token done) (terminal then_endif_token done))

file-selected :
    selected fresh.definitions true file
    ≡ if_token ∷ word_token (codes "a") ∷ else_token ∷ then_endif_token ∷ []
unfolding selected run_blocks
file-selected = refl

file-run :
    run_blocks mangle file fresh
    ≡ run_terminals mangle
        (if_token ∷ word_token (codes "a") ∷ else_token ∷ then_endif_token ∷ [])
        fresh
unfolding run_blocks run_terminals
file-run = refl

-- A directive, too, gives the parse up where too many errors are counted.
errors_of : Outcome → ℕ
errors_of failed = 0
errors_of (aborted q) = q.error_count
errors_of (parsed q) = 0

file-aborted : errors_of (run_blocks mangle file (record fresh { error_count = 20 })) ≡ 21
unfolding run_blocks errors_of
file-aborted = refl

-- if a else then
abbrev chosen : Statements
chosen = then_statement empty (if_else (then_statement empty (word_statement (codes "a"))) empty)

-- [IFDEF] x if [THEN] then: the assertion in the action of the last terminal fails.
abbrev crossing : Blocks
crossing =
    conditional (codes "[IFDEF] x") false (terminal if_token done) (terminal then_endif_token done)

crossing-failed : run_blocks mangle crossing fresh ≡ failed
unfolding run_blocks
crossing-failed = refl

-- leave if then, with 19 errors counted: the 20th at LEAVE, given up at IF.
abbrev wrong : Blocks
wrong = terminal leave_token (terminal if_token (terminal then_endif_token done))

abbrev late : Parser
late = record fresh { error_count = 19 }

wrong-errors : errors_of (run_blocks mangle wrong late) ≡ 21
unfolding run_blocks errors_of
wrong-errors = refl

parse_cleanup-clean_example :
    (fresh.label_stack ≡ [])
    × (fresh.break_stack ≡ [])
    × (fresh.cond_stack ≡ [])
    × (fresh.current_definition ≡ none)
    × (fresh.exit_label ≡ 0)
    × (fresh.error_count ≡ 0)
parse_cleanup-clean_example = parse_cleanup-clean fresh refl
