-- ===== src/Optimizer/Relocate/Total.antt =====
-- The loops of `relocate_suboptimal_labels` of compiler/optimize.cc: labels move only to labels
-- with greater numbers.
use vnpforth.Prelude.{
  ℕ, zero, suc, ◌+◌, ◌≤◌, ◌<◌, Bool, true, false, ◌&&◌, List, [], ◌∷◌, Option, none, some, ◌≡◌,
  ◌==◌, ltb, leb, length, refl, arith, Option-cases, Bool-cases, inl, inr,
}
use vnpforth.Opcode.{Label, Opcode, instruction, is_jump_opcode}
use vnpforth.Optimizer.Pass.{Pass, is_some}
use vnpforth.Optimizer.Relocate.{
  find, assign, Relocations, RelocationScan, relocate_label, step_relocation, scan_relocations,
  advance_forwards, advance_all, keys, no_relocations, relocate_opcodes, build_label_splices,
  relocate_suboptimal_labels,
}

-- Each entry moves its label to a label with a greater number.
abbrev pub is_forward : Relocations → Bool
is_forward [] = true
is_forward ((k, t) ∷ rest) = ltb k t && is_forward rest

abbrev pub one_if : Bool → ℕ
one_if true = 1
one_if false = 0

-- The number of the labels from `l` on that move.
abbrev pub above : Relocations → Label → ℕ
above [] l = 0
above ((k, _) ∷ rest) l = one_if (leb l k) + above rest l

pub above-le-length : (m : Relocations) (l : Label) → above m l ≤ length m
above-le-length [] l = omega arith
above-le-length ((k, t) ∷ rest) l = ground (arith, above-le-length rest l)

pub find-forward :
    (l : Label) (m : Relocations) {t : Label} → is_forward m ≡ true → find l m ≡ some t → l < t
unfolding find
find-forward l [] f e = absurd (cc)
find-forward l ((k, x) ∷ rest) {t} f e = ground (arith, find-forward l rest {t = t})

above_mono : (m : Relocations) (l t : Label) → l < t → above m t ≤ above m l
above_mono [] l t h = omega arith
above_mono ((k, x) ∷ rest) l t h = ground (arith, above_mono rest l t h)

above-find :
    (m : Relocations) (l t : Label) {x : Label} → find l m ≡ some x → l < t → above m t < above m l
unfolding find
above-find [] l t e h = absurd (cc)
above-find ((k, y) ∷ rest) l t {x} e h = elim (Bool-cases (k == l)) [
  | inl q ↦ ground (arith, above_mono rest l t h)
  | inr q ↦ ground (arith, above-find rest l t {x = x} (rw q at e) h)
]

-- The chain of moves ends within the fuel, and does not go back.
pub advance_forwards_total :
    (fuel : ℕ) (m : Relocations) (l : Label)
    → is_forward m ≡ true
    → above m l < fuel
    → (r : Label) × (advance_forwards fuel m l ≡ some r) × (l ≤ r) × (find r m ≡ none)
unfolding advance_forwards
advance_forwards_total zero m l f h = absurd (omega arith)
advance_forwards_total (suc fuel) m l f h = elim (Option-cases (find l m)) [
  | inl e ↦ (l, rw (e, advance_forwards), omega arith, e)
  | inr (t, e) ↦
      let up = find-forward l m f e in
      let (r, p, q, d) = advance_forwards_total fuel m t f (omega (arith, above-find m l t e up)) in
      (r, rw (e, advance_forwards) p, omega arith, d)
]

pub is_forward-assign :
    (k t : Label) (m : Relocations) → is_forward m ≡ true → k < t → is_forward (assign k t m) ≡ true
unfolding assign
is_forward-assign k t [] f h = ground arith
is_forward-assign k t ((j, x) ∷ rest) f h = ground (arith, is_forward-assign k t rest)

find-assign_some :
    (j k t : Label) (m : Relocations)
    → is_some (find j m) ≡ true
    → is_some (find j (assign k t m)) ≡ true
unfolding find assign
find-assign_some j k t [] h = cc
find-assign_some j k t ((i, x) ∷ rest) h = ground (arith, find-assign_some j k t rest)

abbrev pub present : List Label → Relocations → Bool
present [] m = true
present (k ∷ ks) m = is_some (find k m) && present ks m

pub present-assign :
    (ks : List Label) (k t : Label) (m : Relocations)
    → present ks m ≡ true
    → present ks (assign k t m) ≡ true
present-assign [] k t m h = refl
present-assign (j ∷ ks) k t m h = ground (arith, find-assign_some j k t m, present-assign ks k t m)

advance_all_total :
    (ks : List Label) (m : Relocations)
    → is_forward m ≡ true
    → present ks m ≡ true
    → (r : Relocations) × (advance_all ks m ≡ some r) × (is_forward r ≡ true)
unfolding advance_all
advance_all_total [] m f h = (m, refl, f)
advance_all_total (k ∷ ks) m f h = elim (Option-cases (find k m)) [
  | inl e ↦ absurd (cc (rw e at h))
  | inr (t, e) ↦
      let up = find-forward k m f e in
      let (r, p, q, _) =
        advance_forwards_total (suc (length m)) m t f (omega (arith, above-le-length m t)) in
      let (r', p', f') =
        advance_all_total ks (assign k r m) (is_forward-assign k r m f (omega arith))
          (present-assign ks k r m (ground arith)) in
      (r', rw (e, advance_all, p) p', f')
]

find-none_skip :
    (j k t : Label) (m : Relocations)
    → is_some (find j m) ≡ true
    → is_some (find j ((k, t) ∷ m)) ≡ true
unfolding find
find-none_skip j k t m h = ground arith

present-skip :
    (ks : List Label) (k t : Label) (m : Relocations)
    → present ks m ≡ true
    → present ks ((k, t) ∷ m) ≡ true
present-skip [] k t m h = refl
present-skip (j ∷ ks) k t m h = ground (arith, find-none_skip j k t m, present-skip ks k t m)

pub present-keys : (m : Relocations) → present (keys m) m ≡ true
unfolding find
present-keys [] = refl
present-keys ((k, t) ∷ rest) = ground (arith, present-skip (keys rest) k t rest, present-keys rest)

relocate_label-forward :
    (current : Option Label) (target : Label) (m : Relocations)
    → is_forward m ≡ true
    → is_forward (relocate_label current target m) ≡ true
relocate_label-forward none target m f = f
relocate_label-forward (some value) target m f = ground (arith, is_forward-assign value target m f)

step_relocation-forward :
    (op : Opcode) (v : RelocationScan)
    → is_forward v.relocations ≡ true
    → is_forward (step_relocation op v).relocations ≡ true
unfolding step_relocation
step_relocation-forward op v f = elim (Option-cases (is_jump_opcode (instruction op))) [
  | inl e ↦ ground arith
  | inr (target, e) ↦ ground (arith, relocate_label-forward v.current_label target v.relocations f)
]

pub scan_relocations-forward :
    (code : List Opcode) (v : RelocationScan)
    → is_forward v.relocations ≡ true
    → is_forward (scan_relocations code v).relocations ≡ true
unfolding scan_relocations
scan_relocations-forward [] v f = f
scan_relocations-forward (op ∷ rest) v f =
    scan_relocations-forward rest (step_relocation op v) (step_relocation-forward op v f)

-- The relocation of labels ends at any table: the chain of forward jumps from a label has no more
-- steps than there are relocations.
pub relocate_suboptimal_labels_total :
    (P : List Opcode) → (p : Pass) × (relocate_suboptimal_labels P ≡ some p)
unfolding relocate_suboptimal_labels
relocate_suboptimal_labels_total P =
    let scan = scan_relocations P no_relocations in
    let m = scan.relocations in
    let (r, e, _) =
      advance_all_total (keys m) m (scan_relocations-forward P no_relocations refl)
        (present-keys m) in
    (relocate_opcodes r (build_label_splices r scan.label_lines []) P, rw e)
