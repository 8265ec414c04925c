-- ===== src/Optimizer/Relocate/Advance.antt =====
-- The relocations that `relocate_suboptimal_labels` of compiler/optimize.cc ends with: what holds
-- of each jump and of chains of jumps holds of them, and no target is relocated itself.
use vnpforth.Prelude.{
  ℕ, zero, suc, ◌<◌, true, false, List, [], ◌∷◌, none, some, ◌≡◌, sym, ◌==◌, refl, arith, length,
  contains, Option-cases, Bool-cases, inl, inr, ==_iff,
}
use mathlib.Core.Path.{subst}
use vnpforth.Opcode.{Label}
use vnpforth.Optimizer.Pass.{is_some}
use vnpforth.Optimizer.Relocate.{find, assign, Relocations, advance_forwards, advance_all}
use vnpforth.Optimizer.Relocate.Total.{
  is_forward, find-forward, advance_forwards_total, is_forward-assign, above-le-length, present,
  present-assign,
}
use vnpforth.Optimizer.Relocate.Maps.{find-assign, ascends, ascends-assign, find-assign-none}

-- No target of a relocation is relocated.
abbrev pub Flat : Relocations → Type 0
Flat m = (l t : Label) → find l m ≡ some t → find t m ≡ none

module _ (Leads : Label → Label → Type 0) (leads_refl : (l : Label) → Leads l l)
    (leads_trans : (a b c : Label) → Leads a b → Leads b c → Leads a c) where
  pub record Sound (m : Relocations) : Type 0 where
    pub forward : is_forward m ≡ true
    pub ascending : ascends 0 m ≡ true
    pub leads : (l t : Label) → find l m ≡ some t → Leads l t

  advance_forwards-Leads :
      (fuel : ℕ) (m : Relocations) (l : Label) {r : Label}
      → ((l t : Label) → find l m ≡ some t → Leads l t)
      → advance_forwards fuel m l ≡ some r
      → Leads l r
  unfolding advance_forwards
  advance_forwards-Leads zero m l a h = absurd (cc)
  advance_forwards-Leads (suc fuel) m l {r} a h = elim (Option-cases (find l m)) [
    | inl e ↦ subst (λ x. Leads l x) (cc (rw (e, advance_forwards) at h)) (leads_refl l)
    | inr (t, e) ↦
        leads_trans l t r (a l t e)
          (advance_forwards-Leads fuel m t a (rw (e, advance_forwards) at h))
  ]

  pub Sound-assign :
      (k t : Label) (m : Relocations) → Sound m → k < t → Leads k t → Sound (assign k t m)
  Sound-assign k t m s lt le = record {
    forward = is_forward-assign k t m s.forward lt;
    ascending = ascends-assign 0 k t m s.ascending (omega arith);
    leads = λ j x h. elim (Bool-cases (k == j)) [
      | inl q ↦
          let e : x ≡ t = cc (rw (find-assign j k t m, q) at h) in
          let k_is : k ≡ j = (==_iff k j).0 q in
          subst (λ i. Leads i x) k_is (subst (λ y. Leads k y) (sym e) le)
      | inr q ↦ s.leads j x (rw (find-assign j k t m, q) at h)
    ];
  }

  -- The targets of the labels that are done are not relocated.
  abbrev Done : List Label → Relocations → Type 0
  Done ks m = (l t : Label) → contains ks l ≡ false → find l m ≡ some t → find t m ≡ none

  Done-assign :
      (k v : Label) (ks : List Label) (m : Relocations)
      → Done (k ∷ ks) m
      → is_some (find k m) ≡ true
      → find v m ≡ none
      → Done ks (assign k v m)
  Done-assign k v ks m d p e l t c h = elim (Bool-cases (k == l)) [
    | inl q ↦
        let x : v ≡ t = cc (rw (find-assign l k v m, q) at h) in
        find-assign-none t k v m p (subst (λ y. find y m ≡ none) x e)
    | inr q ↦ find-assign-none t k v m p (d l t (ground arith) (rw (find-assign l k v m, q) at h))
  ]

  pub advance_all-Sound :
      (ks : List Label) (m : Relocations)
      → Sound m
      → present ks m ≡ true
      → Done ks m
      → (r : Relocations) × (advance_all ks m ≡ some r) × Sound r × Flat r
  unfolding advance_all
  advance_all-Sound [] m s p d = (m, refl, s, λ l t. d l t refl)
  advance_all-Sound (k ∷ ks) m s p d = elim (Option-cases (find k m)) [
    | inl e ↦ absurd (cc (rw e at p))
    | inr (t, e) ↦
        let up = find-forward k m s.forward e in
        let (v, q, le, e') =
          advance_forwards_total (suc (length m)) m t s.forward
            (omega (arith, above-le-length m t)) in
        let leads =
          leads_trans k t v (s.leads k t e)
            (advance_forwards-Leads (suc (length m)) m t s.leads q) in
        let there : is_some (find k m) ≡ true = rw e in
        let (r, a, b, c) =
          advance_all-Sound ks (assign k v m) (Sound-assign k v m s (omega arith) leads)
            (present-assign ks k v m (ground arith)) (Done-assign k v ks m d there e') in
        (r, rw (e, advance_all, q) a, b, c)
  ]
