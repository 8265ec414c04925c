-- ===== src/Semantics/Unique.antt =====
-- The search for labels and definitions in a program where they stand once.
use vnpforth.Prelude.{true, List, ◌∷◌, none, some, ◌≡◌, arith, contains, ==_refl}
use vnpforth.Prelude.{false, [], refl}
use vnpforth.Symbol.{Symbol, same_symbol}
use vnpforth.Opcode.{Label, Opcode, instruction, is_label_opcode, is_define_opcode}
use vnpforth.Semantics.{find_label, find_define}
use vnpforth.Semantics.Layout.{Suffix, here, there, labels, defined, is_nodup}

contains-suffix_label :
    (l : Label) {op : Opcode} {code P : List Opcode}
    → Suffix (op ∷ code) P
    → is_label_opcode (instruction op) ≡ some l
    → contains (labels P) l ≡ true
unfolding labels
contains-suffix_label l here e = ground (arith, ==_refl l)
contains-suffix_label l (there s) e = ground (arith, contains-suffix_label l s e)

pub find_label-suffix :
    (l : Label) {op : Opcode} {code P : List Opcode}
    → Suffix (op ∷ code) P
    → is_label_opcode (instruction op) ≡ some l
    → is_nodup (labels P) ≡ true
    → find_label l P ≡ some code
unfolding labels find_label
find_label-suffix l here e h = ground (arith, ==_refl l)
find_label-suffix l (there s) e h =
    ground (arith, contains-suffix_label l s e, find_label-suffix l s e)

pub contains-suffix_define :
    (d s : Symbol) {op : Opcode} {code P : List Opcode}
    → Suffix (op ∷ code) P
    → is_define_opcode (instruction op) ≡ some d
    → same_symbol d s ≡ true
    → contains (defined P) s.id ≡ true
unfolding defined
contains-suffix_define d s here e q = ground arith
contains-suffix_define d s (there x) e q = ground (arith, contains-suffix_define d s x e q)

pub find_define-suffix :
    (d s : Symbol) {op : Opcode} {code P : List Opcode}
    → Suffix (op ∷ code) P
    → is_define_opcode (instruction op) ≡ some d
    → same_symbol d s ≡ true
    → is_nodup (defined P) ≡ true
    → find_define s P ≡ some code
unfolding defined find_define
find_define-suffix d s here e q h = ground arith
find_define-suffix d s (there x) e q h =
    ground (arith, contains-suffix_define d s x e q, find_define-suffix d s x e q)

-- A search passes over every other opcode.
pub find_label-skip :
    (l : Label) (op : Opcode) (rest : List Opcode)
    → is_label_opcode (instruction op) ≡ none
    → find_label l (op ∷ rest) ≡ find_label l rest
unfolding find_label
find_label-skip l op rest e = ground arith

pub find_define-skip :
    (s : Symbol) (op : Opcode) (rest : List Opcode)
    → is_define_opcode (instruction op) ≡ none
    → find_define s (op ∷ rest) ≡ find_define s rest
unfolding find_define
find_define-skip s op rest e = ground arith

-- A symbol that is not among the defined ones has no definition.
pub find_define-undefined :
    (s : Symbol) (P : List Opcode) → contains (defined P) s.id ≡ false → find_define s P ≡ none
unfolding defined find_define
find_define-undefined s [] h = refl
find_define-undefined s (op ∷ rest) h = ground (arith, find_define-undefined s rest)
