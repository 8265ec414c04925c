-- ===== src/Parser/Conditions/Errors.antt =====
-- How many errors a parse counts, with the macro `MNE` of compiler/forth.y.
use vnpforth.Prelude.{ℕ, ◌+◌, ◌≤◌, Option, none, some, ◌≡◌}
use vnpforth.Parser.{Parser}
use vnpforth.Parser.Outcome.{Outcome, failed, aborted, parsed, max_allowed_errors}

abbrev AtMost : Option Parser → ℕ → Type 0
AtMost none n = 0 ≤ n
AtMost (some q) n = q.error_count ≤ n

-- A parse that goes on has counted no more errors than are allowed; one that is given up, one more.
data Counts (o : Outcome) : Type 0 where
  went_on : (q : Parser) → o ≡ parsed q → q.error_count ≤ max_allowed_errors → Counts o
  broke : o ≡ failed → Counts o
  stopped : (q : Parser) → o ≡ aborted q → q.error_count ≡ max_allowed_errors + 1 → Counts o
