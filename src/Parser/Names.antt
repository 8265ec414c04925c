-- ===== src/Parser/Names.antt =====
-- The names in the symbol table that the handlers of compiler/parser.cc fill.
mod Tests
use vnpforth.Prelude.{
  ℕ, ◌+◌, Bool, true, false, not, ◌&&◌, ◌||◌, List, [], ◌∷◌, ◌++◌, Option, none, some, ◌==◌, ==_iff,
  Text, text_eq, codes, if◌then◌else◌, ◌≡◌, ◌∙◌, refl, arith, Bool-cases, Option-cases, inl, inr,
}
use vnpforth.Symbol.{Symbol, SymbolKind, word}
use vnpforth.Opcode.{Stack}
use vnpforth.Optimizer.Pass.{is_some}
use vnpforth.Parser.{
  Parser, find_symbol, lookup, new_symbol, add_symbol, add_if, is_first_main, detect_main, f_word,
  word_symbol, f_definedword, begin_word, push_label,
}
use vnpforth.Parser.Literal.{Ranged, to_int, f_integer_literal}
use vnpforth.Parser.Declarations.{
  word_of, lower_word_of, f_definedvariable, f_definedarray, f_definedconstant, f_definedfconstant,
  f_codeword, declare, declare_array, sized_array, is_positive, declare_constant,
}
use vnpforth.Parser.Strings.{f_object_address, with_word}

-- A call of a handler that may add to the symbol table.
pub data Call : Type 0 where
  variable_call constant_call fconstant_call codeword_call word_call define_call : Text → Call
  array_call : Text → Text → Text → Call

text_eq_sym : (s t : Text) → text_eq s t ≡ text_eq t s
text_eq_sym [] [] = refl
text_eq_sym [] (b ∷ t) = refl
text_eq_sym (a ∷ s) [] = refl
text_eq_sym (a ∷ s) (b ∷ t) = ground (arith, text_eq_sym s t)

module _ (mangle : Text → Text) where
  -- No two symbols have one name.
  abbrev pub names_once : List Symbol → Bool
  names_once [] = true
  names_once (s ∷ rest) = not (is_some (find_symbol mangle s.name rest)) && names_once rest

  find-append :
      (name : Text) (xs : List Symbol) (s : Symbol)
      → is_some (find_symbol mangle name (xs ++ (s ∷ [])))
        ≡ (is_some (find_symbol mangle name xs) || text_eq s.name name)
  find-append name [] s = ground arith
  find-append name (x ∷ xs) s = ground (arith, find-append name xs s)

  names_once-append :
      (xs : List Symbol) (s : Symbol)
      → names_once xs ≡ true
      → is_some (find_symbol mangle s.name xs) ≡ false
      → names_once (xs ++ (s ∷ [])) ≡ true
  names_once-append [] s h k = refl
  names_once-append (x ∷ xs) s h k =
      ground (arith, find-append x.name xs s, text_eq_sym x.name s.name, names_once-append xs s)

  names_once-add_if :
      (b : Bool) (xs : List Symbol) (s : Symbol)
      → names_once xs ≡ true
      → (b ≡ true → is_some (find_symbol mangle s.name xs) ≡ false)
      → names_once (add_if mangle b (s ∷ []) xs) ≡ true
  names_once-add_if true xs s h k = names_once-append xs s h (k refl)
  names_once-add_if false xs s h k = h

  names_once-detect_main :
      (p : Parser) → names_once p.symbols ≡ true → names_once (detect_main mangle p).symbols ≡ true
  names_once-detect_main p h =
      names_once-add_if (is_first_main mangle p && not (is_some (lookup mangle (codes "main") p)))
        p.symbols (new_symbol mangle (codes "main") word p) h (λ b. ground arith)

  -- A symbol that is added where the name is not taken.
  names_once-new_symbol :
      (name : Text) (kind : SymbolKind) (p : Parser)
      → names_once p.symbols ≡ true
      → is_some (lookup mangle name p) ≡ false
      → names_once (add_symbol mangle (new_symbol mangle name kind p) p).symbols ≡ true
  names_once-new_symbol name kind p h k =
      names_once-append p.symbols (new_symbol mangle name kind p) h k

  names_once-declare :
      (name : Text) (kind : SymbolKind) (p : Parser)
      → names_once p.symbols ≡ true
      → names_once (declare mangle name kind p).symbols ≡ true
  names_once-declare name kind p h = elim (Bool-cases (is_some (lookup mangle name p))) [
    | inl e ↦ rw (declare, e) h
    | inr e ↦ rw (declare, e) (names_once-new_symbol name kind p h e)
  ]

  names_once-declare_array :
      (name : Text) (size : ℕ) (type : Text) (p : Parser)
      → names_once p.symbols ≡ true
      → is_some (lookup mangle name p) ≡ false
      → names_once (declare_array mangle name size type p).symbols ≡ true
  names_once-declare_array name size type p h k = elim (Bool-cases (text_eq type (codes "chars"))) [
    | inl e ↦ rw (declare_array, e) (names_once-new_symbol name _ p h k)
    | inr e ↦ elim (Bool-cases (text_eq type (codes "cells"))) [
      | inl f ↦ rw (declare_array, e, f) (names_once-new_symbol name _ p h k)
      | inr f ↦ rw (declare_array, e, f) h
    ]
  ]

  names_once-sized_array :
      (name : Text) (size : Ranged ℕ) (type : Text) (p : Parser)
      → names_once p.symbols ≡ true
      → names_once (sized_array mangle name size type p).symbols ≡ true
  names_once-sized_array name size type p h = elim (Bool-cases (is_some (lookup mangle name p))) [
    | inl e ↦ rw (sized_array, e) h
    | inr e ↦ elim (Bool-cases (size.out_of_range || not (is_positive size.value))) [
      | inl f ↦ rw (sized_array, e, f) h
      | inr f ↦ rw (sized_array, e, f) (names_once-declare_array name size.value type p h e)
    ]
  ]

  names_once-declare_constant :
      (name : Text) (kind : SymbolKind) (stack : Stack) (p : Parser)
      → names_once p.symbols ≡ true
      → names_once (declare_constant mangle name kind stack p).symbols ≡ true
  names_once-declare_constant name kind stack p h =
      elim (Bool-cases (is_some (lookup mangle name p))) [
        | inl e ↦ rw (declare_constant, e) h
        | inr e ↦
            rw (declare_constant, e)
              (names_once-detect_main (add_symbol mangle (new_symbol mangle name kind p) p)
                (names_once-new_symbol name kind p h e))
      ]

  names_once-f_codeword :
      (name : Text) (p : Parser)
      → names_once p.symbols ≡ true
      → names_once (f_codeword mangle name p).symbols ≡ true
  names_once-f_codeword name p h = elim (Bool-cases (is_some (lookup mangle name p))) [
    | inl e ↦ rw (f_codeword, e) h
    | inr e ↦ rw (f_codeword, e) (names_once-new_symbol name _ p h e)
  ]

  names_once-f_word :
      (name : Text) (p : Parser)
      → names_once p.symbols ≡ true
      → names_once (f_word mangle name p).symbols ≡ true
  names_once-f_word name p h =
      let q = detect_main mangle p in
      let base = names_once-detect_main p h in
      elim (Option-cases (lookup mangle name q)) [
        | inl e ↦
            rw e (names_once-append q.symbols (word_symbol mangle name q none) base (rw e refl))
        | inr (s, e) ↦ rw e base
      ]

  names_once-f_definedword :
      (name : Text) (p : Parser)
      → names_once p.symbols ≡ true
      → names_once (f_definedword mangle name p).symbols ≡ true
  names_once-f_definedword name p h = elim (Option-cases (lookup mangle name p)) [
    | inl e ↦ rw e (names_once-append p.symbols (new_symbol mangle name word p) h (rw e refl))
    | inr (s, e) ↦ rw e h
  ]

  -- The calls one after another; `long_max` is LONG_MAX.
  unfoldable pub run_calls : ℕ → List Call → Parser → Parser
  unfolding f_definedarray
  run_calls m [] p = p
  run_calls m (variable_call name ∷ rest) p = run_calls m rest (f_definedvariable mangle name p)
  run_calls m (constant_call name ∷ rest) p = run_calls m rest (f_definedconstant mangle name p)
  run_calls m (fconstant_call name ∷ rest) p = run_calls m rest (f_definedfconstant mangle name p)
  run_calls m (codeword_call name ∷ rest) p = run_calls m rest (f_codeword mangle name p)
  run_calls m (word_call name ∷ rest) p = run_calls m rest (f_word mangle name p)
  run_calls m (define_call name ∷ rest) p = run_calls m rest (f_definedword mangle name p)
  run_calls m (array_call s size type ∷ rest) p =
      run_calls m rest (f_definedarray mangle m s size type p)

  names_once-f_definedarray :
      (m : ℕ) (s size type : Text) (p : Parser)
      → names_once p.symbols ≡ true
      → names_once (f_definedarray mangle m s size type p).symbols ≡ true
  unfolding f_definedarray
  names_once-f_definedarray m s size type p h =
      names_once-sized_array (word_of s) (to_int m size) (lower_word_of type) p h

  -- Where no two symbols of the table have one name, none have after any sequence of calls of the
  -- handlers of variables, arrays, constants, code words, words and definitions, so that the
  -- assertion in SymbolTable::add does not fail in them.
  pub names_once-run_calls :
      (m : ℕ) (calls : List Call) (p : Parser)
      → names_once p.symbols ≡ true
      → names_once (run_calls m calls p).symbols ≡ true
  unfolding run_calls
  names_once-run_calls m [] p h = h
  names_once-run_calls m (variable_call name ∷ rest) p h =
      names_once-run_calls m rest (f_definedvariable mangle name p) (names_once-declare name _ p h)
  names_once-run_calls m (constant_call name ∷ rest) p h =
      names_once-run_calls m rest (f_definedconstant mangle name p)
        (names_once-declare_constant name _ _ p h)
  names_once-run_calls m (fconstant_call name ∷ rest) p h =
      names_once-run_calls m rest (f_definedfconstant mangle name p)
        (names_once-declare_constant name _ _ p h)
  names_once-run_calls m (codeword_call name ∷ rest) p h =
      names_once-run_calls m rest (f_codeword mangle name p) (names_once-f_codeword name p h)
  names_once-run_calls m (word_call name ∷ rest) p h =
      names_once-run_calls m rest (f_word mangle name p) (names_once-f_word name p h)
  names_once-run_calls m (define_call name ∷ rest) p h =
      names_once-run_calls m rest (f_definedword mangle name p) (names_once-f_definedword name p h)
  names_once-run_calls m (array_call s size type ∷ rest) p h =
      names_once-run_calls m rest (f_definedarray mangle m s size type p)
        (names_once-f_definedarray m s size type p h)
