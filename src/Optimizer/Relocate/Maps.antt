-- ===== src/Optimizer/Relocate/Maps.antt =====
-- The `std::map` of compiler/optimize.cc: lookup after assignment, and keys in ascending order.
use vnpforth.Prelude.{
  ℕ, suc, ◌≤◌, ◌<◌, Bool, true, ◌&&◌, List, [], ◌∷◌, none, some, ◌≡◌, ◌==◌, leb, refl, arith,
  if◌then◌else◌, Bool-cases, inl, inr, ==_iff,
}
use vnpforth.Optimizer.Pass.{is_some}
use vnpforth.Optimizer.Relocate.{find, assign}

module _ {A : Type 0} where
  pub find-assign :
      (j k : ℕ) (a : A) (m : List (ℕ × A))
      → find j (assign k a m) ≡ (if k == j then some a else find j m)
  unfolding find assign
  find-assign j k a [] = refl
  find-assign j k a ((i, b) ∷ rest) = ground (arith, find-assign j k a rest)

  -- The keys ascend, from `b` on.
  abbrev pub ascends : ℕ → List (ℕ × A) → Bool
  ascends b [] = true
  ascends b ((k, a) ∷ rest) = leb b k && ascends (suc k) rest

  pub ascends-assign :
      (b k : ℕ) (a : A) (m : List (ℕ × A))
      → ascends b m ≡ true
      → b ≤ k
      → ascends b (assign k a m) ≡ true
  unfolding assign
  ascends-assign b k a [] h l = ground arith
  ascends-assign b k a ((j, x) ∷ rest) h l = ground (arith, ascends-assign (suc j) k a rest)

  pub find-ascends : (l b : ℕ) (m : List (ℕ × A)) → ascends b m ≡ true → l < b → find l m ≡ none
  unfolding find
  find-ascends l b [] h lt = refl
  find-ascends l b ((k, x) ∷ rest) h lt = ground (arith, find-ascends l (suc k) rest)

  -- Where the key is there an assignment adds no key.
  pub find-assign-none :
      (t k : ℕ) (a : A) (m : List (ℕ × A))
      → is_some (find k m) ≡ true
      → find t m ≡ none
      → find t (assign k a m) ≡ none
  find-assign-none t k a m p e = elim (Bool-cases (k == t)) [
    | inl q ↦ absurd (cc (rw ((==_iff k t).0 q) at p))
    | inr q ↦ rw (find-assign t k a m, q) e
  ]
