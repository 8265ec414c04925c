-- ===== src/Optimizer/Relocate.antt =====
-- `OpcodeTable::relocate_suboptimal_labels` of compiler/optimize.cc.
pub mod Total
pub mod Maps
pub mod Advance
pub mod Gathered
pub mod Placed
pub mod Leads
pub mod Moved
pub mod Correct
use vnpforth.Prelude.{
  ℕ, zero, suc, ◌+◌, Bool, true, false, not, ◌||◌, List, [], ◌∷◌, ◌++◌, Option, none, some, ◌>>=◌,
  ◌==◌, ltb, length, if◌then◌else◌,
}
use vnpforth.Opcode.{
  Label, Opcode, created, label, instruction, get_line, is_jump_opcode, is_label_opcode,
  is_noop_opcode,
}
use vnpforth.Optimizer.Pass.{Pass, finished, keep, replaced_by, replace_with_nop, is_some}

-- A `std::map` from `int`: its entries in ascending order of the keys.
module _ {ℓ} {A : Type ℓ} where
  unfoldable pub find : ℕ → List (ℕ × A) → Option A
  find k [] = none
  find k ((j, a) ∷ rest) = if j == k then some a else find k rest

  unfoldable pub assign : ℕ → A → List (ℕ × A) → List (ℕ × A)
  assign k a [] = (k, a) ∷ []
  assign k a ((j, b) ∷ rest) =
      if j == k
      then (k, a) ∷ rest
      else if ltb k j
      then (k, a) ∷ (j, b) ∷ rest
      else (j, b) ∷ assign k a rest

-- What `operator[]` of the map gives where the key is absent: 0, or an empty vector.
abbrev pub get_or {ℓ} : {A : Type ℓ} → Option A → A → A
get_or none d = d
get_or (some a) d = a

abbrev pub Relocations : Type 0
Relocations = List (Label × Label)

-- The variables of the first loop.
pub record RelocationScan : Type 0 where
  pub current_label : Option Label
  pub relocations : Relocations
  pub label_lines : List (Label × ℕ)

-- A jump to a label with a greater number, behind a label, relocates that label.
abbrev pub relocate_label : Option Label → Label → Relocations → Relocations
relocate_label none target m = m
relocate_label (some value) target m = if ltb value target then assign value target m else m

unfoldable pub step_relocation : Opcode → RelocationScan → RelocationScan
unfolding is_label_opcode is_jump_opcode is_noop_opcode assign
step_relocation op v = elim (is_label_opcode (instruction op)) [
  | some l ↦ record v { current_label = some l; label_lines = assign l (get_line op) v.label_lines }
  | none ↦ elim (is_jump_opcode (instruction op)) [
    | some target ↦ record v {
      current_label = none;
      relocations = relocate_label v.current_label target v.relocations;
    }
    | none ↦ if is_noop_opcode (instruction op) then v else record v { current_label = none }
  ]
]

unfoldable pub scan_relocations : List Opcode → RelocationScan → RelocationScan
unfolding step_relocation
scan_relocations [] v = v
scan_relocations (op ∷ rest) v = scan_relocations rest (step_relocation op v)

-- `while (relocations.find (forwards) != relocations.end ())`, on fuel; `none` is no fuel left.
unfoldable pub advance_forwards : ℕ → Relocations → Label → Option Label
unfolding find
advance_forwards zero m forwards = none
advance_forwards (suc fuel) m forwards = elim (find forwards m) [
  | none ↦ some forwards
  | some l ↦ advance_forwards fuel m l
]

-- The loop over the entries, which it rewrites as it goes.
unfoldable pub advance_all : List Label → Relocations → Option Relocations
unfolding advance_forwards assign
advance_all [] m = some m
advance_all (value ∷ rest) m = do
  forwards ← advance_forwards (suc (length m)) m (get_or (find value m) 0)
  advance_all rest (assign value forwards m)

abbrev pub keys {ℓ} : {A : Type ℓ} → List (ℕ × A) → List ℕ
keys [] = []
keys ((k, _) ∷ rest) = k ∷ keys rest

abbrev pub LabelSplices : Type 0
LabelSplices = List (Label × List Opcode)

-- For each relocated label a new label opcode, at the splice of its target.
unfoldable pub build_label_splices : Relocations → List (Label × ℕ) → LabelSplices → LabelSplices
unfolding find assign
build_label_splices [] lines m = m
build_label_splices ((value, relocation) ∷ rest) lines m = build_label_splices rest lines (
    assign relocation
      (get_or (find relocation m) [] ++ created (label value) (get_or (find value lines) 0) ∷ []) m)

-- What stands in the place of an opcode: a no-op for a label that moves away, the labels that move
-- here in front of the label.
abbrev pub moved_away : Bool → Opcode → List Opcode
moved_away true op = replace_with_nop op ∷ []
moved_away false op = []

abbrev pub moved_here : Option (List Opcode) → Opcode → List Opcode
moved_here none op = []
moved_here (some ops) op = ops ++ op ∷ []

abbrev pub relocate_if : Bool → Opcode → List Opcode → Pass → Pass
relocate_if true op ops p = replaced_by ops p
relocate_if false op ops p = keep op p

abbrev pub relocate_opcode : Option Label → Relocations → LabelSplices → Opcode → Pass → Pass
relocate_opcode none m splices op p = keep op p
relocate_opcode (some value) m splices op p =
    relocate_if (is_some (find value m) || is_some (find value splices)) op
      (moved_away (is_some (find value m)) op ++ moved_here (find value splices) op) p

unfoldable pub relocate_opcodes : Relocations → LabelSplices → List Opcode → Pass
unfolding find is_label_opcode
relocate_opcodes m splices [] = finished
relocate_opcodes m splices (op ∷ rest) =
    relocate_opcode (is_label_opcode (instruction op)) m splices op
      (relocate_opcodes m splices rest)

abbrev pub no_relocations : RelocationScan
no_relocations = record { current_label = none; relocations = []; label_lines = [] }

unfoldable pub relocate_suboptimal_labels : List Opcode → Option Pass
unfolding scan_relocations advance_all build_label_splices relocate_opcodes
relocate_suboptimal_labels opcodes = do
  let scan = scan_relocations opcodes no_relocations
  relocations ← advance_all (keys scan.relocations) scan.relocations
  some (relocate_opcodes relocations (build_label_splices relocations scan.label_lines []) opcodes)
