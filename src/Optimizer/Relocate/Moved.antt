-- ===== src/Optimizer/Relocate/Moved.antt =====
-- Where labels and definitions stand after `relocate_suboptimal_labels` of compiler/optimize.cc.
use mathlib.Core.Option
use vnpforth.Prelude.{
  ℕ, true, false, List, [], ◌∷◌, ◌++◌, Option, none, some, ◌≡◌, ◌∙◌, sym, ap, ◌==◌, refl, arith,
  contains, Option-cases, Bool-cases, inl, inr,
}
use vnpforth.Symbol.{Symbol}
use vnpforth.Opcode.{Label, Opcode, instruction, is_label_opcode, is_noop_opcode, is_define_opcode}
use vnpforth.Semantics.{Machine, Runtime, exec, arrive, stuck, find_label, find_define}
use vnpforth.Semantics.Layout.{labels}
use vnpforth.Semantics.Unique.{find_label-skip, find_define-skip}
use vnpforth.Semantics.Simulation.{MatchesDefines}
use vnpforth.Semantics.Step.{exec-next}
use vnpforth.Optimizer.Pass.{is_executable}
use vnpforth.Optimizer.UselessCalls.Correct.{idle_step}
use vnpforth.Optimizer.Relocate.{Relocations, LabelSplices}
use vnpforth.Optimizer.Relocate.Placed.{
  Placed, target, pieces, all_idle, image, image-nil, image-label, image-other, all_idle-pieces,
  contains-pieces,
}

module _ {W : Type 0} (R : Runtime W) (Q : List Opcode) where
  pub exec-all_idle :
      (n : ℕ) (ops code : List Opcode) (m : Machine W)
      → all_idle ops ≡ true
      → exec R Q n (ops ++ code) m ≡ exec R Q n code m
  exec-all_idle n [] code m h = refl
  exec-all_idle n (op ∷ ops) code m h =
      exec-next R Q n op (ops ++ code) m m (idle_step R Q (instruction op) m (ground arith))
      ∙ exec-all_idle n ops code m (ground arith)

  -- A label among opcodes that a run passes over leads to the code behind them.
  arrive-all_idle :
      (n : ℕ) (l : Label) (ops code : List Opcode) (m : Machine W)
      → all_idle ops ≡ true
      → contains (labels ops) l ≡ true
      → arrive R Q (exec R Q n) m (find_label l (ops ++ code)) ≡ exec R Q n code m
  unfolding find_label labels
  arrive-all_idle n l [] code m h c = absurd (cc)
  arrive-all_idle n l (op ∷ ops) code m h c =
      elim (Option-cases (is_label_opcode (instruction op))) [
        | inl e ↦ rw (e, find_label) (arrive-all_idle n l ops code m (ground arith) (ground arith))
        | inr (k, e) ↦ elim (Bool-cases (k == l)) [
          | inl q ↦ rw (e, find_label, q) (exec-all_idle n ops code m (ground arith))
          | inr q ↦
              rw (e, find_label, q) (arrive-all_idle n l ops code m (ground arith) (ground arith))
        ]
      ]

find_label-append :
    (l : Label) (ops code : List Opcode)
    → contains (labels ops) l ≡ false
    → find_label l (ops ++ code) ≡ find_label l code
unfolding find_label labels
find_label-append l [] code h = refl
find_label-append l (op ∷ ops) code h = ground (arith, find_label-append l ops code)

find_define-all_idle :
    (s : Symbol) (ops code : List Opcode)
    → all_idle ops ≡ true
    → find_define s (ops ++ code) ≡ find_define s code
unfolding find_define is_executable is_label_opcode is_noop_opcode is_define_opcode
find_define-all_idle s [] code h = refl
find_define-all_idle s (op ∷ ops) code h = ground (arith, find_define-all_idle s ops code)

label_not_define :
    (op : Opcode) {k : Label}
    → is_label_opcode (instruction op) ≡ some k
    → is_define_opcode (instruction op) ≡ none
unfolding is_label_opcode is_define_opcode
label_not_define op e = ground arith

find_label-here :
    (l k : Label) (op : Opcode) (rest : List Opcode)
    → is_label_opcode (instruction op) ≡ some k
    → (l == k) ≡ true
    → find_label l (op ∷ rest) ≡ some rest
unfolding find_label
find_label-here l k op rest e q = ground arith

find_label-past :
    (l k : Label) (op : Opcode) (rest : List Opcode)
    → is_label_opcode (instruction op) ≡ some k
    → (l == k) ≡ false
    → find_label l (op ∷ rest) ≡ find_label l rest
unfolding find_label
find_label-past l k op rest e q = ground arith

find_define-kept :
    (s : Symbol) (op : Opcode) (rest rest' : List Opcode) (f : List Opcode → List Opcode)
    → rest' ≡ f rest
    → find_define s rest' ≡ Option.map f (find_define s rest)
    → find_define s (op ∷ rest') ≡ Option.map f (find_define s (op ∷ rest))
unfolding find_define
find_define-kept s op rest rest' f e h = ground arith

find_define-nil : (s : Symbol) → find_define s [] ≡ none
unfolding find_define
find_define-nil s = refl

find_label-nil : (l : Label) → find_label l [] ≡ none
unfolding find_label
find_label-nil l = refl

module _ (r : Relocations) (splices : LabelSplices) (placed : Placed r splices) where
  abbrev moved : List Opcode → List Opcode
  moved = image r splices placed

  pub find_define-moved : (P : List Opcode) → MatchesDefines P (moved P) moved
  find_define-moved [] s = rw (image-nil r splices placed, find_define-nil s)
  find_define-moved (op ∷ rest) s = elim (Option-cases (is_label_opcode (instruction op))) [
    | inl e ↦
        ap (find_define s) (image-other r splices placed op rest e)
        ∙ find_define-kept s op rest (moved rest) moved refl (find_define-moved rest s)
    | inr (k, e) ↦
        ap (find_define s) (image-label r splices placed op rest e)
        ∙ find_define-all_idle s (pieces r splices k op) (moved rest)
            (all_idle-pieces r splices placed op k e)
        ∙ find_define-moved rest s
        ∙ ap (λ o. Option.map moved o) (sym (find_define-skip s op rest (label_not_define op e)))
  ]

  module _ {W : Type 0} (R : Runtime W) (Q : List Opcode) where
    abbrev arrive_moved : ℕ → Machine W → Option (List Opcode) → Option (Machine W)
    arrive_moved n m o = arrive R Q (λ c. exec R Q n (moved c)) m o

    -- A label is found where the label that it moves to was found.
    pub arrive-moved :
        (n : ℕ) (l : Label) (m : Machine W) (code : List Opcode)
        → arrive R Q (exec R Q n) m (find_label l (moved code))
          ≡ arrive_moved n m (find_label (target r l) code)
    arrive-moved n l m [] =
        rw (image-nil r splices placed, find_label-nil l, find_label-nil (target r l))
    arrive-moved n l m (op ∷ rest) = elim (Option-cases (is_label_opcode (instruction op))) [
      | inl e ↦
          ap (λ c. arrive R Q (exec R Q n) m (find_label l c))
            (image-other r splices placed op rest e)
          ∙ rw (find_label-skip l op (moved rest) e, find_label-skip (target r l) op rest e)
              (arrive-moved n l m rest)
      | inr (k, e) ↦
          ap (λ c. arrive R Q (exec R Q n) m (find_label l c))
            (image-label r splices placed op rest e)
          ∙ elim (Bool-cases (target r l == k)) [
            | inl q ↦
                arrive-all_idle R Q n l (pieces r splices k op) (moved rest) m
                  (all_idle-pieces r splices placed op k e)
                  (contains-pieces r splices placed op k e l ∙ q)
                ∙ sym (ap (arrive_moved n m) (find_label-here (target r l) k op rest e q))
            | inr q ↦
                ap (arrive R Q (exec R Q n) m) (
                  find_label-append l (pieces r splices k op) (moved rest)
                    (contains-pieces r splices placed op k e l ∙ q))
                ∙ arrive-moved n l m rest
                ∙ sym (ap (arrive_moved n m) (find_label-past (target r l) k op rest e q))
          ]
    ]

pub arrive-stuck :
    {W : Type 0} (R : Runtime W) (P : List Opcode) (m : Machine W) (o : Option (List Opcode))
    → arrive R P (stuck R P) m o ≡ none
arrive-stuck R P m none = refl
arrive-stuck R P m (some c) = refl
