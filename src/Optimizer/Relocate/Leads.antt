-- ===== src/Optimizer/Relocate/Leads.antt =====
-- What leads where by the scan of `relocate_suboptimal_labels` of compiler/optimize.cc.
use vnpforth.Prelude.{
  ℕ, true, List, [], ◌∷◌, Option, none, some, ◌≡◌, ◌∙◌, sym, ltb, refl, arith, Option-cases,
  Bool-cases, inl, inr,
}
use vnpforth.Opcode.{Label, Opcode, instruction, is_label_opcode, is_noop_opcode, is_jump_opcode}
use vnpforth.Semantics.{Machine, Runtime, exec, arrive, find_label}
use vnpforth.Semantics.Layout.{Suffix, Suffix-tail, labels, is_nodup}
use vnpforth.Semantics.Unique.{find_label-suffix}
use vnpforth.Semantics.Step.{step-noop, step-jump, exec-next, exec-goto, below}
use vnpforth.Semantics.Fuel.{below-exec}
use vnpforth.Optimizer.Relocate.{
  Relocations, RelocationScan, relocate_label, step_relocation, scan_relocations,
}
use vnpforth.Optimizer.Relocate.Advance.{Sound, Sound-assign}

module _ {W : Type 0} (R : Runtime W) (P : List Opcode) where
  -- All that a run from the first label ends in, a run from the second one ends in.
  abbrev pub Leads : Label → Label → Type 0
  Leads l t =
      (n : ℕ) (m x : Machine W)
      → arrive R P (exec R P n) m (find_label l P) ≡ some x
      → arrive R P (exec R P n) m (find_label t P) ≡ some x

  pub Leads-refl : (l : Label) → Leads l l
  Leads-refl l n m x h = h

  pub Leads-trans : (a b c : Label) → Leads a b → Leads b c → Leads a c
  Leads-trans a b c f g n m x h = g n m x (f n m x h)

  abbrev pub SoundAt : Relocations → Type 0
  SoundAt m = Sound Leads Leads-refl Leads-trans m

  arrive-below :
      (n : ℕ) (m x : Machine W) (o : Option (List Opcode))
      → arrive R P (below R P n) m o ≡ some x
      → arrive R P (exec R P n) m o ≡ some x
  arrive-below n m x none h = cc
  arrive-below n m x (some c) h = below-exec R P n c m x h

  -- The scan at the code at hand: its relocations lead on, and a run from its current label is a
  -- run of that code.
  pub record Scanned (v : RelocationScan) (code : List Opcode) : Type 0 where
    pub relocations : SoundAt v.relocations
    pub current :
        (l : Label)
        → v.current_label ≡ some l
        → (n : ℕ) (m : Machine W) → arrive R P (exec R P n) m (find_label l P) ≡ exec R P n code m

  module _ (once : is_nodup (labels P) ≡ true) (op : Opcode) (rest : List Opcode)
      (s : Suffix (op ∷ rest) P) (v : RelocationScan) (scanned : Scanned v (op ∷ rest)) where
    Leads-jump :
        (l t : Label)
        → v.current_label ≡ some l
        → is_jump_opcode (instruction op) ≡ some t
        → Leads l t
    Leads-jump l t c e n m x h = arrive-below n m x (find_label t P) (
        sym (exec-goto R P n op rest m (step-jump R (instruction op) m e))
        ∙ sym (scanned.current l c n m)
        ∙ h)

    Sound-relocate_label :
        (o : Option Label) (t : Label)
        → v.current_label ≡ o
        → is_jump_opcode (instruction op) ≡ some t
        → SoundAt (relocate_label o t v.relocations)
    Sound-relocate_label none t c e = scanned.relocations
    Sound-relocate_label (some l) t c e = elim (Bool-cases (ltb l t)) [
      | inl q ↦ rw q (
          Sound-assign Leads Leads-refl Leads-trans l t v.relocations scanned.relocations
            (ground arith) (Leads-jump l t c e))
      | inr q ↦ rw q scanned.relocations
    ]

    Scanned-step_relocation : Scanned (step_relocation op v) rest
    unfolding step_relocation
    Scanned-step_relocation = elim (Option-cases (is_label_opcode (instruction op))) [
      | inr (l, e) ↦
          rw (step_relocation, e)
            (record {
              relocations = scanned.relocations;
              current =
                  λ k c n m. let x : l ≡ k = cc in rw (← x) (rw (find_label-suffix l s e once));
            })
      | inl a ↦ elim (Option-cases (is_jump_opcode (instruction op))) [
        | inr (t, e) ↦
            rw (step_relocation, a, e)
              (record {
                relocations = Sound-relocate_label v.current_label t refl e;
                current = λ k c. absurd (cc);
              })
        | inl b ↦ elim (Bool-cases (is_noop_opcode (instruction op))) [
          | inl q ↦
              rw (step_relocation, a, b, q)
                (record {
                  relocations = scanned.relocations;
                  current = λ k c n m.
                      scanned.current k c n m
                      ∙ exec-next R P n op rest m m (step-noop R (instruction op) m q);
                })
          | inr q ↦
              rw (step_relocation, a, b, q)
                (record { relocations = scanned.relocations; current = λ k c. absurd (cc) })
        ]
      ]
    ]

  pub Sound-scan_relocations :
      is_nodup (labels P) ≡ true
      → (code : List Opcode) (v : RelocationScan) → Suffix code P
      → Scanned v code
      → SoundAt (scan_relocations code v).relocations
  unfolding scan_relocations
  Sound-scan_relocations once [] v s k = k.relocations
  Sound-scan_relocations once (op ∷ rest) v s k =
      Sound-scan_relocations once rest (step_relocation op v) (Suffix-tail s)
        (Scanned-step_relocation once op rest s v k)
