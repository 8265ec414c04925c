-- ===== src/Parser/Conditions.antt =====
-- The conditional directives of compiler/parser.cc: `cond_state`, their terminal handlers, the end of
-- the file and `parse_cleanup`. Warnings and messages are left out.
pub mod Terminals
pub mod Nested
pub mod Selected
pub mod Errors
pub mod Cleanup
mod Tests
use vnpforth.Prelude.{
  ℕ, ◌+◌, Bool, true, false, not, ◌&&◌, ◌||◌, List, [], ◌∷◌, Option, none, some, ◌==◌, leb, Text,
  text_eq, if◌then◌else◌,
}
use vnpforth.Opcode.{Label}
use vnpforth.Mangler.{lower, to_lower}
use vnpforth.Optimizer.Pass.{is_some}
use vnpforth.Parser.{Parser, parse_error}
use vnpforth.Parser.Literal.{is_space, skip_spaces}

-- `std::count_if` of the flags that hold, against the size.
abbrev pub count_flags : List (Bool × ℕ) → ℕ
count_flags [] = 0
count_flags ((flag, line) ∷ rest) = (if flag then 1 else 0) + count_flags rest

abbrev pub size : List (Bool × ℕ) → ℕ
size [] = 0
size (c ∷ rest) = 1 + size rest

abbrev pub cond_state : Parser → Bool
cond_state p = count_flags p.cond_stack == size p.cond_stack

-- `ins >> s`: the next word, and what is behind it.
unfoldable pub take_word : Text → Text × Text
take_word [] = ([], [])
take_word (c ∷ s) =
    let (word, rest) = take_word s in if is_space c then ([], c ∷ s) else (c ∷ word, rest)

unfoldable pub read_word : Text → Text × Text
unfolding skip_spaces take_word
read_word s = take_word (skip_spaces s)

-- `ins >> junk >> ss`
unfoldable pub second_word : Text → Text
unfolding read_word
second_word s = let (junk, rest) = read_word s in let (ss, end) = read_word rest in ss

abbrev pub is_member : Text → List Text → Bool
is_member s [] = false
is_member s (t ∷ rest) = text_eq t s || is_member s rest

abbrev pub xor : Bool → Bool → Bool
xor true b = not b
xor false b = b

unfoldable pub condition_of : Text → Bool → List Text → Bool
unfolding second_word lower
condition_of s is_ifundef definitions =
    xor (is_member (to_lower (second_word s)) definitions) is_ifundef

abbrev pub f_cond_ifdef : Text → Bool → Parser → Parser
f_cond_ifdef s is_ifundef p = record p {
  cond_stack = (condition_of s is_ifundef p.definitions, p.line_number) ∷ p.cond_stack;
}

abbrev pub flip_back : List (Bool × ℕ) → List (Bool × ℕ)
flip_back [] = []
flip_back ((flag, line) ∷ rest) = (not flag, line) ∷ rest

abbrev pub is_empty_list {ℓ} : {A : Type ℓ} → List A → Bool
is_empty_list [] = true
is_empty_list (a ∷ rest) = false

abbrev pub f_cond_else : Parser → Parser
f_cond_else p =
    if is_empty_list p.cond_stack
    then parse_error p
    else record p { cond_stack = flip_back p.cond_stack }

abbrev pub pop_back : List (Bool × ℕ) → List (Bool × ℕ)
pop_back [] = []
pop_back (c ∷ rest) = rest

abbrev pub f_cond_then_endif : Parser → Parser
f_cond_then_endif p =
    if is_empty_list p.cond_stack
    then parse_error p
    else record p { cond_stack = pop_back p.cond_stack }

abbrev pub f_end_of_file : Parser → Parser
f_end_of_file p = if is_empty_list p.cond_stack then p else parse_error p

abbrev pub error_if : Bool → Parser → Parser
error_if wrong p = if wrong then parse_error p else p

abbrev pub parse_cleanup : Parser → Parser
parse_cleanup p =
    if p.error_count == 0
    then (let q =
          error_if
            (not (
              is_empty_list p.label_stack
              && is_empty_list p.break_stack
              && is_empty_list p.cond_stack))
            p in
        let r = error_if (is_some q.current_definition) q in error_if (not (r.exit_label == 0)) r)
    else p
