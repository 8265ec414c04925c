-- ===== src/Optimizer/SmallFunctions/Splices.antt =====
-- The splices that `inline_small_functions` of compiler/optimize.cc builds.
use vnpforth.Prelude.{◌+◌}
use vnpforth.Prelude.{
  ℕ, Bool, true, false, ◌&&◌, List, [], ◌∷◌, ◌++◌, Option, none, some, ◌≡◌, refl, sym, ap, ◌∙◌,
  arith, Bool-cases, Option-cases, inl, inr, contains, append-nil, append_assoc, if◌then◌else◌,
}
use vnpforth.Symbol.{Symbol, same_symbol}
use vnpforth.Opcode.{Opcode, instruction, is_define_opcode, is_enddefine_opcode}
use vnpforth.Semantics.{find_define}
use vnpforth.Semantics.Layout.{Suffix, here, there, defined, is_nodup}
use vnpforth.Semantics.Unique.{find_define-suffix, contains-suffix_define}
use vnpforth.Optimizer.Pass.{SymbolSet, holds, points_to, is_executable}
use vnpforth.Optimizer.SmallFunctions.{
  SpliceMap, SpliceScan, find_splice, push_splice, push_current, step_splice, build_splices,
  splices_of, find_candidates, no_candidates, one_if,
}
use vnpforth.Optimizer.SmallFunctions.Candidates.{is_small, find_candidates-small}

-- What a part of the code adds to the splice of `s`, where `active` says that a definition of `s`
-- is being spliced.
added : SymbolSet → Symbol → List Opcode → Bool → List Opcode
added candidates s [] active = []
added candidates s (op ∷ rest) active = elim (is_define_opcode (instruction op)) [
  | some d ↦ added candidates s rest (if holds candidates d then same_symbol d s else active)
  | none ↦ elim (is_enddefine_opcode (instruction op)) [
    | true ↦ added candidates s rest false
    | false ↦
        let more = added candidates s rest active in
        if active && is_executable (instruction op) then op ∷ more else more
  ]
]

abbrev join : Option (List Opcode) → List Opcode → Option (List Opcode)
join none [] = none
join none (op ∷ ops) = some (op ∷ ops)
join (some ops) more = some (ops ++ more)

join-nil : (o : Option (List Opcode)) → o ≡ join o []
join-nil none = refl
join-nil (some ops) = rw append-nil

find-push :
    (s d : Symbol) (op : Opcode) (m : SpliceMap)
    → find_splice s (push_splice d op m)
      ≡ (if same_symbol d s then join (find_splice s m) (op ∷ []) else find_splice s m)
unfolding find_splice push_splice
find-push s d op [] = ground arith
find-push s d op ((k, ops) ∷ rest) = ground (arith, find-push s d op rest)

join-join :
    (o : Option (List Opcode)) (op : Opcode) (ops : List Opcode)
    → join (join o (op ∷ [])) ops ≡ join o (op ∷ ops)
join-join none op ops = refl
join-join (some a) op ops = ap some (append_assoc a (op ∷ []) ops)

join-push :
    (s : Symbol) (op : Opcode) (more : List Opcode) (current : Option Symbol) (m : SpliceMap)
    → join (find_splice s (push_current current op m)) more
      ≡ join (find_splice s m) (if points_to current s then op ∷ more else more)
join-push s op more none m = refl
join-push s op more (some d) m = elim (Bool-cases (same_symbol d s)) [
  | inl e ↦ rw (find-push s d op m, e) (join-join (find_splice s m) op more)
  | inr e ↦ rw (find-push s d op m, e)
]

find-build :
    (candidates : SymbolSet) (s : Symbol) (code : List Opcode) (v : SpliceScan)
    → find_splice s (build_splices candidates code v)
      ≡ join (find_splice s v.splices) (added candidates s code (points_to v.splicing s))
unfolding build_splices added step_splice
find-build candidates s [] v = join-nil (find_splice s v.splices)
find-build candidates s (op ∷ rest) v =
    find-build candidates s rest (step_splice candidates op v)
    ∙ ground (
      arith,
      join-push s op (added candidates s rest (points_to v.splicing s)) v.splicing v.splices,
    )

-- The executable opcodes up to the definition's end.
unfoldable pub body_of : List Opcode → List Opcode
unfolding is_executable
body_of [] = []
body_of (op ∷ rest) = elim (is_enddefine_opcode (instruction op)) [
  | true ↦ []
  | false ↦ let more = body_of rest in if is_executable (instruction op) then op ∷ more else more
]

-- Code that does not define the symbol adds nothing.
added-undefined :
    (candidates : SymbolSet) (s : Symbol) (code : List Opcode)
    → contains (defined code) s.id ≡ false
    → added candidates s code false ≡ []
unfolding added defined
added-undefined candidates s [] h = refl
added-undefined candidates s (op ∷ rest) h = ground (arith, added-undefined candidates s rest)

added-body :
    (candidates : SymbolSet) (s : Symbol) (count : ℕ) (body : List Opcode)
    → is_small count body ≡ true
    → contains (defined body) s.id ≡ false
    → added candidates s body true ≡ body_of body
unfolding added defined body_of is_small is_define_opcode is_enddefine_opcode
added-body candidates s count [] h u = refl
added-body candidates s count (op ∷ rest) h u = ground (
  arith,
  added-undefined candidates s rest,
  added-body candidates s (count + one_if (is_executable (instruction op))) rest,
)

holds-same :
    (candidates : SymbolSet) (d s : Symbol)
    → same_symbol d s ≡ true
    → holds candidates d ≡ holds candidates s
holds-same [] d s q = refl
holds-same (none ∷ rest) d s q = holds-same rest d s q
holds-same (some k ∷ rest) d s q = ground (arith, holds-same rest d s q)

-- Up to the definition of the symbol, which stands once, nothing is added.
added-suffix :
    (candidates : SymbolSet) (d s : Symbol) {op : Opcode} {body P : List Opcode}
    → Suffix (op ∷ body) P
    → is_define_opcode (instruction op) ≡ some d
    → same_symbol d s ≡ true
    → holds candidates s ≡ true
    → is_nodup (defined P) ≡ true
    → (added candidates s P false ≡ added candidates s body true)
      × (contains (defined body) s.id ≡ false)
unfolding added defined
added-suffix candidates d s here e q c h =
    (ground (arith, holds-same candidates d s q), ground arith)
added-suffix candidates d s (there {op = op'} {P = P'} x) e q c h =
    ground (arith, contains-suffix_define d s x e q, added-suffix candidates d s x e q c)

-- What is no candidate is not spliced.
added-not_candidate :
    (candidates : SymbolSet) (s : Symbol) (code : List Opcode)
    → holds candidates s ≡ false
    → added candidates s code false ≡ []
unfolding added
added-not_candidate candidates s [] c = refl
added-not_candidate candidates s (op ∷ rest) c =
    elim (Option-cases (is_define_opcode (instruction op))) [
      | inl e ↦ ground (arith, added-not_candidate candidates s rest c)
      | inr (d, e) ↦
          ground (arith, holds-same candidates d s, added-not_candidate candidates s rest c)
    ]

join-none : (more ops : List Opcode) → join none more ≡ some ops → ops ≡ more
join-none [] ops h = cc
join-none (op ∷ more) ops h = cc

-- A splice of a program that defines a symbol once is the body of the symbol's definition: its
-- executable opcodes up to the end, at most ten, with no branch and no assembly among them.
pub find_splice-splices_of :
    (s : Symbol) (P ops : List Opcode)
    → is_nodup (defined P) ≡ true
    → find_splice s (splices_of P) ≡ some ops
    → (body : List Opcode) × (find_define s P ≡ some body)
      × (is_small 0 body ≡ true)
      × (ops ≡ body_of body)
unfolding find_splice
find_splice-splices_of s P ops once h = elim (Bool-cases (holds candidates s)) [
  | inl c ↦
      let e = find_candidates-small s P c in
      let (a, u) = added-suffix candidates e.symbol s e.stands e.defines e.same c once in
      (
        e.body,
        find_define-suffix e.symbol s e.stands e.defines e.same once,
        e.small,
        join-none (body_of e.body) ops
            (rw (a ∙ added-body candidates s 0 e.body e.small u) at collected),
      )
  | inr c ↦ absurd (cc (rw (added-not_candidate candidates s P c) at collected))
]
  where
    candidates : SymbolSet
    candidates = find_candidates P no_candidates

    collected : join none (added candidates s P false) ≡ some ops
    collected = sym (find-build candidates s P (record { splicing = none; splices = [] })) ∙ h
