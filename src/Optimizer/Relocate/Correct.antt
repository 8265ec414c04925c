-- ===== src/Optimizer/Relocate/Correct.antt =====
-- Runs and `relocate_suboptimal_labels` of compiler/optimize.cc: a run from a label that moves comes
-- by jumps to the label that it moves to.
use mathlib.Core.Path.{subst}
use vnpforth.Prelude.{
  ℕ, zero, suc, true, List, [], ◌∷◌, Option, some, ◌≡◌, ◌∙◌, sym, ap, refl, arith, contains,
  Option-cases, inl, inr,
}
use vnpforth.Symbol.{Symbol}
use vnpforth.Opcode.{Label, Opcode, instruction, is_label_opcode}
use vnpforth.Semantics.{
  Machine, Runtime, Action, next, goto, enter, leave, fault, run, exec, step, arrive, follow,
  Refines, find_label,
}
use vnpforth.Semantics.Layout.{here, Suffix-tail, labels, is_nodup}
use vnpforth.Semantics.Simulation.{Improves, at_label, follow-image}
use vnpforth.Semantics.Step.{step-label, exec-next, exec-cons, below}
use vnpforth.Semantics.Refine.{Whole, Lower, exec-nil_image, refine}
use vnpforth.Optimizer.Pass.{Pass}
use vnpforth.Optimizer.Relocate.{
  find, Relocations, LabelSplices, scan_relocations, keys, no_relocations, relocate_opcodes,
  build_label_splices, relocate_suboptimal_labels,
}
use vnpforth.Optimizer.Relocate.Total.{present-keys}
use vnpforth.Optimizer.Relocate.Advance.{Sound, Flat, advance_all-Sound}
use vnpforth.Optimizer.Relocate.Placed.{
  Placed, Placed-build_label_splices, target, pieces, image, image-label, image-other,
  all_idle-pieces,
}
use vnpforth.Optimizer.Relocate.Leads.{
  Leads, Leads-refl, Leads-trans, Scanned, Sound-scan_relocations,
}
use vnpforth.Optimizer.Relocate.Moved.{exec-all_idle, find_define-moved, arrive-moved, arrive-stuck}

module _ {W : Type 0} (R : Runtime W) (P : List Opcode) (r : Relocations) (splices : LabelSplices)
    (placed : Placed r splices) (leads : (l t : Label) → find l r ≡ some t → Leads R P l t) where
  abbrev moved_of : List Opcode → List Opcode
  moved_of = image r splices placed

  Leads-target : (l : Label) → Leads R P l (target r l)
  Leads-target l = elim (Option-cases (find l r)) [
    | inl e ↦ rw e (λ n m x h. h)
    | inr (t, e) ↦ rw e (leads l t e)
  ]

  -- A branch to a label that moves: the run goes on at the label that it moves to.
  goto-moved :
      (n : ℕ) (l : Label) (m x : Machine W)
      → Lower R P (moved_of P) moved_of n
      → arrive R P (below R P n) m (find_label l P) ≡ some x
      → arrive R (moved_of P) (below R (moved_of P) n) m (find_label l (moved_of P)) ≡ some x
  goto-moved zero l m x lower h = absurd (cc (arrive-stuck R P m (find_label l P)))
  goto-moved (suc n) l m x lower h =
      let h' = Leads-target l n m x h in
      arrive-moved r splices placed R (moved_of P) n l m P
      ∙ elim (Option-cases (find_label (target r l) P)) [
        | inl e ↦ absurd (cc (rw e at h'))
        | inr (c, e) ↦ rw e (lower c (at_label (target r l) e) m x (rw e at h'))
      ]

  follow-moved :
      (n : ℕ) (a : Action W) {resume resume' : Machine W → Option (Machine W)} (x : Machine W)
      → Lower R P (moved_of P) moved_of n
      → Improves resume resume'
      → follow R P resume (below R P n) a ≡ some x
      → follow R (moved_of P) resume' (below R (moved_of P) n) a ≡ some x
  unfolding follow
  follow-moved n (next m) x lower onward h = onward m x h
  follow-moved n (goto l m) x lower onward h = goto-moved n l m x lower h
  follow-moved n (enter s m) x lower onward h =
      follow-image R P (moved_of P) moved_of (below R P n) (below R (moved_of P) n) lower
        (find_define-moved r splices placed P) onward (enter s m) (λ l m' e. absurd (cc)) x h
  follow-moved n (leave m) x lower onward h = h
  follow-moved n fault x lower onward h = h

  exec-moved : Whole R P (moved_of P) moved_of
  exec-moved n lower [] s m x h = exec-nil_image R P (moved_of P) moved_of n (moved_of []) m x h
  exec-moved n lower (op ∷ rest) s m x h =
      let onward = exec-moved n lower rest (Suffix-tail s) in
      elim (Option-cases (is_label_opcode (instruction op))) [
        | inl e ↦
            ap (λ c. exec R (moved_of P) n c m) (image-other r splices placed op rest e)
            ∙ exec-cons R (moved_of P) n op (moved_of rest) m
            ∙ follow-moved n (step R (instruction op) m) x lower onward
                (sym (exec-cons R P n op rest m) ∙ h)
        | inr (k, e) ↦
            ap (λ c. exec R (moved_of P) n c m) (image-label r splices placed op rest e)
            ∙ exec-all_idle R (moved_of P) n (pieces r splices k op) (moved_of rest) m
                (all_idle-pieces r splices placed op k e)
            ∙ onward m x (sym (exec-next R P n op rest m m (step-label R (instruction op) m e)) ∙ h)
      ]

pub contains-keys :
    (l : Label) (m : Relocations) {t : Label} → find l m ≡ some t → contains (keys m) l ≡ true
unfolding find
contains-keys l [] e = absurd (cc)
contains-keys l ((k, x) ∷ rest) {t} e = ground (arith, contains-keys l rest {t = t})

-- The relocations of a program whose labels stand once.
module _ {W : Type 0} (R : Runtime W) (P : List Opcode) (once : is_nodup (labels P) ≡ true) where
  Scanned-start : Scanned R P no_relocations P
  unfolding find
  Scanned-start = record {
    relocations = record { forward = refl; ascending = refl; leads = λ l t h. absurd (cc) };
    current = λ l e. absurd (cc);
  }

  abbrev relocated_by : Relocations → Pass
  relocated_by r =
      relocate_opcodes r (build_label_splices r (scan_relocations P no_relocations).label_lines [])
        P

  relocated :
      (r : Relocations) × (relocate_suboptimal_labels P ≡ some (relocated_by r))
      × Sound (Leads R P) (Leads-refl R P) (Leads-trans R P) r
      × Flat r
  unfolding relocate_suboptimal_labels
  relocated =
      let m = (scan_relocations P no_relocations).relocations in
      let sound = Sound-scan_relocations R P once P no_relocations here Scanned-start in
      let (r, e, s, f) =
        advance_all-Sound (Leads R P) (Leads-refl R P) (Leads-trans R P) (keys m) m sound
          (present-keys m) (λ l t c h. absurd (cc (contains-keys l m h))) in
      (r, rw e, s, f)

  run-relocated :
      (r : Relocations)
      → Sound (Leads R P) (Leads-refl R P) (Leads-trans R P) r
      → Flat r
      → Refines R P (relocated_by r).opcodes
  run-relocated r s f =
      let splices = build_label_splices r (scan_relocations P no_relocations).label_lines [] in
      let placed =
        Placed-build_label_splices r (scan_relocations P no_relocations).label_lines s.ascending
          f in
      refine R P (image r splices placed P) (image r splices placed)
        (find_define-moved r splices placed P) (exec-moved R P r splices placed s.leads)

  -- The relocation of labels keeps every run of a program each of whose labels stands once, in the
  -- meaning of the intermediate code: a run of a definition that ends in a machine, within some
  -- number of nested branches and calls, is a run of the optimized program that ends in the same
  -- machine within that number.
  pub run-relocate_suboptimal_labels :
      (p : Pass)
      → relocate_suboptimal_labels P ≡ some p
      → (n : ℕ) (s : Symbol) (m t : Machine W) → run R P n s m ≡ some t
      → run R p.opcodes n s m ≡ some t
  run-relocate_suboptimal_labels p e =
      let (r, q, s, f) = relocated in
      let same : some (relocated_by r) ≡ some p = sym q ∙ e in
      let same' : relocated_by r ≡ p = cc in
      subst (λ (x : Pass). Refines R P x.opcodes) same' (run-relocated r s f)
