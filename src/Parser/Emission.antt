-- ===== src/Parser/Emission.antt =====
-- The labels that the handlers of compiler/parser.cc emit: how often each stands in the opcodes.
pub mod Steps
pub mod Structures
pub mod Statements
pub mod Once
pub mod Definition
use vnpforth.Prelude.{
  ℕ, ◌+◌, ◌≤◌, ◌<◌, Bool, true, false, List, [], ◌∷◌, ◌++◌, Option, none, some, ◌==◌, ltb,
  Bool-cases, ◌⊎◌, inl, inr, if◌then◌else◌, ◌≡◌, ◌∙◌, sym, refl, arith,
}
use mathlib.Core.Path.{subst}
use vnpforth.Opcode.{Label, Opcode, instruction, is_label_opcode}
use vnpforth.Parser.{Parser}

abbrev pub one_if : Bool → ℕ
one_if true = 1
one_if false = 0

abbrev pub is_label : Label → Option Label → ℕ
is_label l none = 0
is_label l (some k) = one_if (k == l)

unfoldable pub count_label : Label → List Opcode → ℕ
unfolding is_label_opcode
count_label l [] = 0
count_label l (op ∷ rest) = is_label l (is_label_opcode (instruction op)) + count_label l rest

pub count_label-append :
    (l : Label) (xs ys : List Opcode)
    → count_label l (xs ++ ys) ≡ count_label l xs + count_label l ys
unfolding count_label
count_label-append l [] ys = omega arith
count_label-append l (op ∷ xs) ys = omega (arith, count_label-append l xs ys)

-- One handler: so many labels taken, and each label emitted so often.
pub record Step (p q : Parser) (taken : ℕ) (emitted : Label → ℕ) : Type 0 where
  pub sequence : q.label_sequence ≡ p.label_sequence + taken
  pub count : (l : Label) → count_label l q.opcodes ≡ count_label l p.opcodes + emitted l

-- A handler that comes to an end with such a step.
pub record Closes (p : Parser) (o : Option Parser) (taken : ℕ) (emitted : Label → ℕ) : Type 0 where
  pub parser : Parser
  pub result : o ≡ some parser
  pub step : Step p parser taken emitted

pub Closes-Step :
    {p : Parser} {o : Option Parser} {taken : ℕ} {emitted : Label → ℕ} {q : Parser}
    → Closes p o taken emitted
    → o ≡ some q
    → Step p q taken emitted
Closes-Step {p} {o} {taken} {emitted} {q} c e =
    let same : some c.parser ≡ some q = sym c.result ∙ e in
    let same' : c.parser ≡ q = cc in subst (λ (x : Parser). Step p x taken emitted) same' c.step

-- Handlers together: the labels that they emit are among those that they take, each at most once.
pub record Emits (p q : Parser) : Type 0 where
  pub grows : p.label_sequence ≤ q.label_sequence
  pub below : (l : Label) → l < p.label_sequence → count_label l q.opcodes ≡ count_label l p.opcodes
  pub beyond :
      (l : Label) → q.label_sequence ≤ l → count_label l q.opcodes ≡ count_label l p.opcodes
  pub once : (l : Label) → count_label l q.opcodes ≤ count_label l p.opcodes + 1

pub Emits-none : {p q : Parser} → Step p q 0 (λ l. 0) → Emits p q
Emits-none s = record {
  grows = omega (arith, s.sequence);
  below = λ l h. omega (arith, s.count l);
  beyond = λ l h. omega (arith, s.count l);
  once = λ l. omega (arith, s.count l);
}

pub lt_or_le : (a b : ℕ) → (a < b) ⊎ (b ≤ a)
lt_or_le a b = elim (Bool-cases (ltb a b)) [
  | inl h ↦ inl (ground arith)
  | inr h ↦ inr (ground arith)
]

pub Emits-then : {p q r : Parser} → Emits p q → Emits q r → Emits p r
Emits-then {p} {q} {r} e f = record {
  grows = omega (arith, e.grows, f.grows);
  below = λ l h. f.below l (omega (arith, e.grows)) ∙ e.below l h;
  beyond = λ l h. f.beyond l h ∙ e.beyond l (omega (arith, f.grows));
  once = λ l. elim (lt_or_le l q.label_sequence) [
    | inl h ↦ omega (arith, f.below l h, e.once l)
    | inr h ↦ omega (arith, e.beyond l h, f.once l)
  ];
}

-- The labels that a pair of handlers emits, around others.
pub record Around (p p' r q : Parser) (emitted : Label → ℕ) : Type 0 where
  pub not_below : (l : Label) → l < p.label_sequence → emitted l ≡ 0
  pub not_inside : (l : Label) → p'.label_sequence ≤ l → l < r.label_sequence → emitted l ≡ 0
  pub not_beyond : (l : Label) → q.label_sequence ≤ l → emitted l ≡ 0
  pub at_most_once : (l : Label) → emitted l ≤ 1

-- Handlers between one that opens a structure and one that closes it.
pub Emits-Around :
    (p p' r q : Parser) (taken more : ℕ) (opened closed : Label → ℕ)
    → Step p p' taken opened
    → Emits p' r
    → Step r q more closed
    → Around p p' r q (λ l. opened l + closed l)
    → Emits p q
Emits-Around p p' r q taken more opened closed o e c a = record {
  grows = omega (arith, o.sequence, e.grows, c.sequence);
  below = λ l h. omega (
    arith,
    o.sequence,
    o.count l,
    c.count l,
    e.below l (omega (arith, o.sequence)),
    a.not_below l h,
  );
  beyond = λ l h.
      omega (arith, o.count l, c.count l, e.beyond l (omega (arith, c.sequence)), a.not_beyond l h);
  once = λ l. elim (lt_or_le l p'.label_sequence) [
    | inl h ↦ omega (arith, o.count l, c.count l, e.below l h, a.at_most_once l)
    | inr h ↦ elim (lt_or_le l r.label_sequence) [
      | inl k ↦ omega (arith, o.count l, c.count l, e.once l, a.not_inside l h k)
      | inr k ↦ omega (arith, o.count l, c.count l, e.beyond l k, a.at_most_once l)
    ]
  ];
}
