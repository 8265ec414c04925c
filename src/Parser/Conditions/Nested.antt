-- ===== src/Parser/Conditions/Nested.antt =====
-- Conditional directives that close what they open, in compiler/parser.cc and compiler/forth.y.
use vnpforth.Prelude.{
  ℕ, ◌<◌, Bool, true, false, not, ◌&&◌, List, [], ◌∷◌, ◌++◌, Option, some, ◌==◌, Text, Bool-cases,
  Option-cases, inl, inr, if◌then◌else◌, ◌≡◌, refl,
}
use vnpforth.Parser.{Parser}
use vnpforth.Parser.Outcome.{
  Outcome, failed, aborted, parsed, ◌>>=◌, mne, excessive_errors, max_allowed_errors,
}
use vnpforth.Parser.Conditions.{
  count_flags, size, cond_state, condition_of, f_cond_ifdef, f_cond_else, f_cond_then_endif,
}
use vnpforth.Parser.Conditions.Terminals.{Terminal, handle, conditioned}

-- A file, as far as the directives matter: terminals, and conditionals with and without [ELSE]. A
-- conditional has its text and whether it is [IFUNDEF].
pub data Blocks : Type 0 where
  done : Blocks
  terminal : Terminal → Blocks → Blocks
  conditional : Text → Bool → Blocks → Blocks → Blocks
  conditional_else : Text → Bool → Blocks → Blocks → Blocks → Blocks

-- The macro `P`: the handler's result, where the conditions hold.
abbrev pub unless_suppressed : Parser → Option Parser → Option Parser
unless_suppressed p handled = if cond_state p then handled else some p

module _ (mangle : Text → Text) where
  -- The actions for a file, in order.
  unfoldable pub run_blocks : Blocks → Parser → Outcome
  unfolding condition_of
  run_blocks done p = parsed p
  run_blocks (terminal t rest) p =
      mne p (unless_suppressed p (handle mangle t p)) >>= run_blocks rest
  run_blocks (conditional s is_ifundef inner rest) p = do
    q ← mne p (some (f_cond_ifdef s is_ifundef p))
    r ← run_blocks inner q
    t ← mne r (some (f_cond_then_endif r))
    run_blocks rest t
  run_blocks (conditional_else s is_ifundef inner other rest) p = do
    q ← mne p (some (f_cond_ifdef s is_ifundef p))
    r ← run_blocks inner q
    t ← mne r (some (f_cond_else r))
    u ← run_blocks other t
    v ← mne u (some (f_cond_then_endif u))
    run_blocks rest v

  -- The actions for terminals with no directive among them.
  unfoldable pub run_terminals : List Terminal → Parser → Outcome
  run_terminals [] p = parsed p
  run_terminals (t ∷ rest) p = mne p (handle mangle t p) >>= run_terminals rest

  pub run_terminals-append :
      (ts us : List Terminal) (p : Parser)
      → run_terminals (ts ++ us) p ≡ (run_terminals ts p >>= run_terminals us)
  unfolding run_terminals
  run_terminals-append [] us p = refl
  run_terminals-append (t ∷ ts) us p = elim (Bool-cases (excessive_errors p)) [
    | inl h ↦ rw h refl
    | inr h ↦ elim (Option-cases (handle mangle t p)) [
      | inl e ↦ rw (h, e) refl
      | inr (q, e) ↦ rw (h, e) (run_terminals-append ts us q)
    ]
  ]

abbrev pub one_if_on : Bool → Terminal → List Terminal
one_if_on true t = t ∷ []
one_if_on false t = []

-- The terminals that the conditions around them select.
unfoldable pub selected : List Text → Bool → Blocks → List Terminal
selected definitions on done = []
selected definitions on (terminal t rest) = one_if_on on t ++ selected definitions on rest
selected definitions on (conditional s u inner rest) =
    selected definitions (on && condition_of s u definitions) inner ++ selected definitions on rest
selected definitions on (conditional_else s u inner other rest) =
    selected definitions (on && condition_of s u definitions) inner
    ++ (selected definitions (on && not (condition_of s u definitions)) other
        ++ selected definitions on rest)

abbrev all_hold : List (Bool × ℕ) → Bool
all_hold conds = count_flags conds == size conds

module _ (mangle : Text → Text) (definitions : List Text) where
  -- The actions for a file come to what those for its selected terminals come to, apart from the
  -- conditions; or the parse is given up.
  data Follows (conds : List (Bool × ℕ)) (o plain : Outcome) : Type 0 where
    both_parsed :
        (q : Parser)
        → o ≡ parsed (conditioned conds definitions q)
        → plain ≡ parsed q
        → Follows conds o plain
    both_failed : o ≡ failed → plain ≡ failed → Follows conds o plain
    given_up :
        (q : Parser) → o ≡ aborted q → max_allowed_errors < q.error_count → Follows conds o plain
