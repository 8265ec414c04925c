-- ===== src/Optimizer/Layout/Pieces.antt =====
-- The labels, the definitions and the nesting of a table in parts.
use vnpforth.Prelude.{
  ℕ, Bool, true, false, ◌||◌, List, [], ◌∷◌, ◌++◌, none, some, ◌≡◌, refl, arith, contains, ==_iff,
}
use vnpforth.Opcode.{Label, Opcode, instruction, is_label_opcode, is_noop_opcode}
use vnpforth.Semantics.Layout.{labels, defined, is_nodup, is_nested, nests, inside_after}
use vnpforth.Optimizer.Pass.{is_executable}
use vnpforth.Optimizer.Relocate.Placed.{all_idle}

pub labels-append : (xs ys : List Opcode) → labels (xs ++ ys) ≡ labels xs ++ labels ys
unfolding labels
labels-append [] ys = refl
labels-append (op ∷ xs) ys = ground (arith, labels-append xs ys)

pub contains-append :
    (xs ys : List ℕ) (l : ℕ) → contains (xs ++ ys) l ≡ (contains xs l || contains ys l)
contains-append [] ys l = refl
contains-append (x ∷ xs) ys l = ground (arith, contains-append xs ys l)

pub nodup-append :
    (xs ys : List ℕ)
    → is_nodup xs ≡ true
    → is_nodup ys ≡ true
    → ((l : ℕ) → contains xs l ≡ true → contains ys l ≡ false)
    → is_nodup (xs ++ ys) ≡ true
nodup-append [] ys h k d = k
nodup-append (x ∷ xs) ys h k d =
    let new : contains ys x ≡ false = d x (ground (arith, ==_iff x x)) in
    let rest = nodup-append xs ys (ground arith) k (λ l c. d l (ground arith)) in
    ground (arith, contains-append xs ys x)

pub labels_nil : labels [] ≡ []
unfolding labels
labels_nil = refl

pub labels-skip :
    (op : Opcode) (rest : List Opcode)
    → is_label_opcode (instruction op) ≡ none
    → labels (op ∷ rest) ≡ labels rest
unfolding labels
labels-skip op rest e = rw e

pub labels-label :
    (op : Opcode) (rest : List Opcode) {k : Label}
    → is_label_opcode (instruction op) ≡ some k
    → labels (op ∷ rest) ≡ k ∷ labels rest
unfolding labels
labels-label op rest e = rw e

pub defined-all_idle :
    (ops code : List Opcode) → all_idle ops ≡ true → defined (ops ++ code) ≡ defined code
unfolding defined is_executable is_label_opcode is_noop_opcode
defined-all_idle [] code h = refl
defined-all_idle (op ∷ ops) code h = ground (arith, defined-all_idle ops code)

pub nested-all_idle :
    (ops code : List Opcode)
    → all_idle ops ≡ true
    → is_nested true (ops ++ code) ≡ is_nested true code
unfolding is_nested is_executable is_label_opcode is_noop_opcode nests inside_after
nested-all_idle [] code h = refl
nested-all_idle (op ∷ ops) code h = ground (arith, nested-all_idle ops code)

-- A label stands in a definition.
pub nested-label :
    (inside : Bool) (op : Opcode) (rest : List Opcode) {k : Label}
    → is_label_opcode (instruction op) ≡ some k
    → is_nested inside (op ∷ rest) ≡ true
    → (inside ≡ true) × (is_nested true rest ≡ true)
unfolding is_nested is_label_opcode nests inside_after
nested-label true op rest e h = ground arith
nested-label false op rest e h = ground arith

pub defined-label :
    (op : Opcode) (rest : List Opcode) {k : Label}
    → is_label_opcode (instruction op) ≡ some k
    → defined (op ∷ rest) ≡ defined rest
unfolding defined is_label_opcode
defined-label op rest e = ground arith

pub defined-kept :
    (op : Opcode) (rest rest' : List Opcode)
    → defined rest' ≡ defined rest
    → defined (op ∷ rest') ≡ defined (op ∷ rest)
unfolding defined
defined-kept op rest rest' h = rw h

pub nested-kept :
    (inside : Bool) (op : Opcode) (rest rest' : List Opcode)
    → ((i : Bool) → is_nested i rest ≡ true → is_nested i rest' ≡ true)
    → is_nested inside (op ∷ rest) ≡ true
    → is_nested inside (op ∷ rest') ≡ true
unfolding is_nested
nested-kept inside op rest rest' f h = ground (arith, f (inside_after inside (instruction op)))
