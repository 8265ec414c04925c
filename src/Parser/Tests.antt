-- ===== src/Parser/Tests.antt =====
-- Witnesses: the theorems about the parser at one definition, `: word if 1cell ?do leave loop else
-- case nothing of recurse endof exit endcase then ;`.
use vnpforth.Prelude.{ℕ, ◌<◌, Bool, true, false, none, List, [], ◌∷◌, ◌≡◌, refl, codes, ◌⊎◌}
use vnpforth.Opcode.{Label}
use vnpforth.Parser.Outcome.{Outcome, failed, aborted, parsed, max_allowed_errors}
use vnpforth.Mangler.{mangle}
use vnpforth.Data.{no_data}
use vnpforth.Parser.{Parser, parse_setup}
use vnpforth.Parser.Syntax.{
  Statement, Statements, word_statement, exit, recurse, leave, if_then, if_else, do_loop,
  case_statement, empty, then_statement, one_clause, query_do_token, loop_token, parse_statements,
  parse_definition,
}
use vnpforth.Parser.Syntax.Balanced.{parse_statements_balanced}
use vnpforth.Parser.Emission.Once.{LabelsOnce, parse_statements-LabelsOnce}
use vnpforth.Parser.Emission.Definition.{parse_definition-LabelsOnce}
use vnpforth.Semantics.Layout.{labels}

abbrev pub fresh : Parser
fresh = parse_setup (record {
  line_number = 0;
  error_count = 0;
  current_definition = none;
  label_sequence = 0;
  exit_label = 0;
  label_stack = [];
  break_stack = [];
  cond_stack = [];
  definitions = codes "linux" ∷ [];
  implicit_main = false;
  symbols = [];
  count = 0;
  opcodes = [];
  dattable = no_data;
})

abbrev only : Statement → Statements
only s = then_statement empty s

abbrev body : Statements
body = only (
    if_else
      (then_statement (only (word_statement (codes "1cell")))
        (do_loop query_do_token (only leave) loop_token))
      (only (
        case_statement (one_clause (only (word_statement (codes "nothing"))) (only recurse))
          (only exit))))

parse_statements_balanced_example :
    ((q : Parser) × (parse_statements mangle body fresh ≡ parsed q)
      × (q.label_stack ≡ [])
      × (q.break_stack ≡ []))
    ⊎ ((q : Parser) × (parse_statements mangle body fresh ≡ aborted q)
        × (max_allowed_errors < q.error_count))
parse_statements_balanced_example = parse_statements_balanced mangle body fresh

fresh-LabelsOnce : LabelsOnce fresh
unfolding labels
fresh-LabelsOnce = record { once = refl; taken = λ l h. absurd (cc) }

parse_statements-LabelsOnce_example :
    ((q : Parser) × (parse_statements mangle body fresh ≡ parsed q) × LabelsOnce q)
    ⊎ ((q : Parser) × (parse_statements mangle body fresh ≡ aborted q)
        × (max_allowed_errors < q.error_count))
parse_statements-LabelsOnce_example = parse_statements-LabelsOnce mangle body fresh fresh-LabelsOnce

parse_definition-LabelsOnce_example :
    ((q : Parser) × (parse_definition mangle (codes "word") body fresh ≡ parsed q) × LabelsOnce q)
    ⊎ ((q : Parser) × (parse_definition mangle (codes "word") body fresh ≡ aborted q)
        × (max_allowed_errors < q.error_count))
parse_definition-LabelsOnce_example =
    parse_definition-LabelsOnce mangle (codes "word") body fresh fresh-LabelsOnce

-- Whether a parse went on, and the labels and the errors that it left.
abbrev left_by : Outcome → Bool × (List Label × ℕ)
left_by failed = (false, ([], 0))
left_by (aborted q) = (false, (q.label_stack, q.error_count))
left_by (parsed q) = (true, (q.label_stack, q.error_count))

-- `if leave then` outside of a loop, which counts an error; the 20th leaves the label of IF.
abbrev stray : Statements
stray = only (if_then (only leave))

stray-parsed :
    left_by (parse_statements mangle stray (record fresh { error_count = 18 })) ≡ (true, ([], 19))
unfolding parse_statements
stray-parsed = refl

stray-aborted :
    left_by (parse_statements mangle stray (record fresh { error_count = 19 }))
    ≡ (false, (1 ∷ [], 21))
unfolding parse_statements
stray-aborted = refl
