-- ===== src/Parser/Outcome.antt =====
-- compiler/forth.y: what a parse comes to. The macro `MNE`, with which every action begins, gives the
-- parse up (`YYABORT`) where too many errors are counted.
use vnpforth.Prelude.{
  ℕ, Bool, Option, none, some, leb, Bool-cases, inl, inr, if◌then◌else◌, ◌≡◌, refl,
}
use vnpforth.Parser.{Parser, parse_error}

-- An assertion failed, the parse was given up, or it went on.
pub data Outcome : Type 0 where
  failed : Outcome
  aborted parsed : Parser → Outcome

infixl 5 ◌>>=◌
abbrev pub ◌>>=◌ : Outcome → (Parser → Outcome) → Outcome
failed >>= f = failed
aborted p >>= f = aborted p
parsed p >>= f = f p

abbrev pub max_allowed_errors : ℕ
max_allowed_errors = 20

abbrev pub excessive_errors : Parser → Bool
excessive_errors p = leb max_allowed_errors p.error_count

abbrev pub accepted : Option Parser → Outcome
accepted none = failed
accepted (some p) = parsed p

-- An action: `MNE`, and then the handler with this result.
abbrev pub mne : Parser → Option Parser → Outcome
mne p handled = if excessive_errors p then aborted (parse_error p) else accepted handled

accepted-eq : {q : Parser} (o : Option Parser) → accepted o ≡ parsed q → o ≡ some q
accepted-eq none e = absurd (cc)
accepted-eq (some p) e = cc

-- An action that went on was its handler.
pub mne-eq : {q : Parser} (p : Parser) (o : Option Parser) → mne p o ≡ parsed q → o ≡ some q
mne-eq p o e = elim (Bool-cases (excessive_errors p)) [
  | inl h ↦ absurd (let stopped : aborted (parse_error p) ≡ parsed _ = rw h at e in cc)
  | inr h ↦ accepted-eq o (rw h at e)
]

pub >>=-eq-parsed :
    {q : Parser} (o : Outcome) (f : Parser → Outcome)
    → (o >>= f) ≡ parsed q
    → (r : Parser) × (o ≡ parsed r) × (f r ≡ parsed q)
>>=-eq-parsed failed f e = absurd (cc)
>>=-eq-parsed (aborted p) f e = absurd (cc)
>>=-eq-parsed (parsed p) f e = (p, refl, e)

-- What follows an action whose handler cannot fail.
pub mne_bind-eq :
    {q : Parser} (p x : Parser) (f : Parser → Outcome)
    → (mne p (some x) >>= f) ≡ parsed q
    → f x ≡ parsed q
mne_bind-eq p x f e = elim (Bool-cases (excessive_errors p)) [
  | inl h ↦ absurd (let stopped : aborted (parse_error p) ≡ parsed _ = rw h at e in cc)
  | inr h ↦ rw h at e
]
