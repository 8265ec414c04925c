-- ===== src/Semantics/Layout.antt =====
-- The shape of an opcode table that the passes of compiler/optimize.cc rely on: every opcode
-- stands in a definition, a label or a definition stands once.
use vnpforth.Prelude.{
  ℕ, Bool, true, false, not, ◌&&◌, List, [], ◌∷◌, Option, none, some, ◌≡◌, arith, contains,
}
use mathlib.Core.Option
use mathlib.Core.Path.{subst}
use mathlib.Core.Logic.{◌⊎◌, inl, inr}
use vnpforth.Symbol.{Symbol}
use vnpforth.Opcode.{
  Label, Opcode, Instruction, define, end_define, instruction, is_label_opcode, is_define_opcode,
}
use vnpforth.Semantics.{find_label, find_define}

-- Definitions are closed and not nested, and no opcode stands outside of one.
unfoldable pub nests : Bool → Instruction → Bool
nests inside (define _) = not inside
nests inside _ = inside

unfoldable pub inside_after : Bool → Instruction → Bool
inside_after inside (define _) = true
inside_after inside (end_define _) = false
inside_after inside _ = inside

unfoldable pub is_nested : Bool → List Opcode → Bool
unfolding nests inside_after
is_nested inside [] = not inside
is_nested inside (op ∷ rest) =
    nests inside (instruction op) && is_nested (inside_after inside (instruction op)) rest

-- The labels that the code carries, and the ids of the symbols that it defines.
abbrev pub option_list {ℓ} : {A : Type ℓ} → Option A → List A → List A
option_list none xs = xs
option_list (some a) xs = a ∷ xs

unfoldable pub labels : List Opcode → List Label
unfolding is_label_opcode
labels [] = []
labels (op ∷ rest) = option_list (is_label_opcode (instruction op)) (labels rest)

unfoldable pub defined : List Opcode → List ℕ
unfolding is_define_opcode
defined [] = []
defined (op ∷ rest) =
    option_list (Option.map (λ s. s.id) (is_define_opcode (instruction op))) (defined rest)

abbrev pub is_nodup : List ℕ → Bool
is_nodup [] = true
is_nodup (a ∷ as') = not (contains as' a) && is_nodup as'

pub record IsLaidOut (P : List Opcode) : Type 0 where
  pub nested : is_nested false P ≡ true
  pub labels_once : is_nodup (labels P) ≡ true
  pub defined_once : is_nodup (defined P) ≡ true

-- `code` is the end of the program.
pub data Suffix (code : List Opcode) : List Opcode → Type 0 where
  here : Suffix code code
  there : {op : Opcode} {P : List Opcode} → Suffix code P → Suffix code (op ∷ P)

pub Suffix-tail : {op : Opcode} {code P : List Opcode} → Suffix (op ∷ code) P → Suffix code P
Suffix-tail here = there here
Suffix-tail (there s) = there (Suffix-tail s)

find_label-cons :
    (l : Label) (op : Opcode) (rest : List Opcode) {code : List Opcode}
    → find_label l (op ∷ rest) ≡ some code
    → (rest ≡ code) ⊎ (find_label l rest ≡ some code)
unfolding find_label
find_label-cons l op rest h = ground arith

pub Suffix-find_label :
    (l : Label) (P : List Opcode) {code : List Opcode} → find_label l P ≡ some code → Suffix code P
unfolding find_label
Suffix-find_label l [] h = absurd (cc)
Suffix-find_label l (op ∷ rest) {code} h = elim (find_label-cons l op rest h) [
  | inl e ↦ subst (λ c. Suffix c (op ∷ rest)) e (there here)
  | inr h' ↦ there (Suffix-find_label l rest h')
]

find_define-cons :
    (s : Symbol) (op : Opcode) (rest : List Opcode) {code : List Opcode}
    → find_define s (op ∷ rest) ≡ some code
    → (rest ≡ code) ⊎ (find_define s rest ≡ some code)
unfolding find_define
find_define-cons s op rest h = ground arith

pub Suffix-find_define :
    (s : Symbol) (P : List Opcode) {code : List Opcode}
    → find_define s P ≡ some code
    → Suffix code P
unfolding find_define
Suffix-find_define s [] h = absurd (cc)
Suffix-find_define s (op ∷ rest) {code} h = elim (find_define-cons s op rest h) [
  | inl e ↦ subst (λ c. Suffix c (op ∷ rest)) e (there here)
  | inr h' ↦ there (Suffix-find_define s rest h')
]
