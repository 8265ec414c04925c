-- ===== src/OpcodeTable/Nesting.antt =====
-- The nesting of definitions around `synthesize_main` of compiler/optable.cc.
use vnpforth.Prelude.{Bool, true, false, not, ◌&&◌, List, [], ◌∷◌, ◌++◌, ◌≡◌, ◌∙◌, refl, arith}
use mathlib.Core.List.{append-nil}
use mathlib.Core.Path.{subst}
use vnpforth.Symbol.{Symbol}
use vnpforth.Opcode.{Instruction, define, end_define, label, Opcode, created, instruction, get_line}
use vnpforth.Semantics.Layout.{is_nested, inside_after}
use vnpforth.OpcodeTable.{split_main, with_main, last_line, synthesize_main}

-- What the parser leaves: definitions that are closed and not nested, with code outside of them.
unfoldable pub closes : Bool → Instruction → Bool
closes inside (define _) = not inside
closes inside (end_define _) = inside
closes inside _ = true

unfoldable pub is_closed : Bool → List Opcode → Bool
unfolding closes inside_after
is_closed inside [] = not inside
is_closed inside (op ∷ rest) =
    closes inside (instruction op) && is_closed (inside_after inside (instruction op)) rest

nested-functions :
    (in_main : Bool) (ops after : List Opcode)
    → is_closed (not in_main) ops ≡ true
    → is_nested (not in_main) ((split_main in_main ops).function_opcodes ++ after)
      ≡ is_nested false after
unfolding is_closed split_main is_nested
nested-functions true [] after h = refl
nested-functions false [] after h = ground arith
nested-functions true (op ∷ rest) after h =
    ground (arith, nested-functions true rest after, nested-functions false rest after)
nested-functions false (op ∷ rest) after h =
    ground (arith, nested-functions true rest after, nested-functions false rest after)

-- The main code holds neither end of a definition.
nested-mains :
    (in_main : Bool) (ops after : List Opcode)
    → is_closed (not in_main) ops ≡ true
    → is_nested true ((split_main in_main ops).main_opcodes ++ after) ≡ is_nested true after
unfolding is_closed split_main is_nested
nested-mains true [] after h = refl
nested-mains false [] after h = refl
nested-mains true (op ∷ rest) after h =
    ground (arith, nested-mains true rest after, nested-mains false rest after)
nested-mains false (op ∷ rest) after h =
    ground (arith, nested-mains true rest after, nested-mains false rest after)

-- With no main code the table is the functions.
only_functions :
    (in_main : Bool) (ops : List Opcode)
    → (split_main in_main ops).main_opcodes ≡ []
    → (split_main in_main ops).function_opcodes ≡ ops
unfolding split_main
only_functions true [] h = refl
only_functions false [] h = refl
only_functions true (op ∷ rest) h =
    ground (arith, only_functions true rest, only_functions false rest)
only_functions false (op ∷ rest) h =
    ground (arith, only_functions true rest, only_functions false rest)

nested-with_main :
    (main : Symbol) (P ms : List Opcode)
    → is_closed false P ≡ true
    → (split_main true P).main_opcodes ≡ ms
    → is_nested false (with_main main P (split_main true P).function_opcodes ms) ≡ true
unfolding is_nested
nested-with_main main P [] h e =
    subst (λ X. is_nested false X ≡ true) (append-nil _ ∙ only_functions true P e)
      (nested-functions true P [] h)
nested-with_main main P (op ∷ rest) h e =
    let tail =
      created (label 0) (last_line op rest) ∷ created (end_define main) (last_line op rest) ∷ [] in
    nested-functions true P (created (define main) (get_line op) ∷ ((op ∷ rest) ++ tail)) h
    ∙ subst (λ ms. is_nested true (ms ++ tail) ≡ is_nested true tail) e (nested-mains true P tail h)

-- Where the parser leaves definitions that are closed and not nested, synthesize_main leaves a
-- table in which every opcode stands in a definition and the definitions nest, which the optimizer
-- relies on.
pub nested-synthesize_main :
    (main : Symbol) (P : List Opcode)
    → is_closed false P ≡ true
    → is_nested false (synthesize_main main P) ≡ true
unfolding synthesize_main
nested-synthesize_main main P h = nested-with_main main P (split_main true P).main_opcodes h refl
