-- ===== src/Parser.antt =====
-- compiler/parser.h and the state of compiler/parser.cc, with the terminal handlers that do not
-- depend on the control stacks. `Mangler::mangle` is a parameter. An `assert` that fails is `none`.
-- An error counts and leaves its message out. An opcode that is constructed with the table goes to
-- the end of the table.
pub mod Outcome
pub mod Control
pub mod Literal
pub mod Emission
pub mod Conditions
pub mod Declarations
pub mod Strings
pub mod Names
pub mod Syntax
pub mod Tests
use vnpforth.Prelude.{
  ℕ, zero, suc, ◌+◌, Bool, true, false, not, ◌&&◌, ◌||◌, List, [], ◌∷◌, ◌++◌, Option, none, some,
  Text, text_eq, codes, if◌then◌else◌,
}
use vnpforth.Data.{DataTable}
use vnpforth.Symbol.{
  Symbol, SymbolKind, word, anonword, external, is_variable_symbol, is_intconstant_symbol,
  is_floatconstant_symbol, is_callable_symbol, is_anonword_symbol,
}
use vnpforth.Opcode.{
  Register, r0, r1, data_stack, float_stack, Label, Instruction, call, define, end_define, label,
  load_symbol, load_symbol_indirect, push, jump, Opcode, created,
}
use vnpforth.Optimizer.Pass.{is_some}

-- The parser, with the tables that it fills: `symbols` in the order of their addition, `count` the
-- next id of a symbol. The back of `cond_stack_` is the head of the list.
pub record Parser : Type 0 where
  pub line_number : ℕ
  pub error_count : ℕ
  pub current_definition : Option Symbol
  pub label_sequence : ℕ
  pub exit_label : ℕ
  pub label_stack : List Label
  pub break_stack : List Label
  pub cond_stack : List (Bool × ℕ)
  pub definitions : List Text
  pub implicit_main : Bool
  pub symbols : List Symbol
  pub count : ℕ
  pub opcodes : List Opcode
  pub dattable : DataTable

abbrev pub parse_setup : Parser → Parser
parse_setup p = record p {
  line_number = 1;
  error_count = 0;
  current_definition = none;
  label_sequence = 1;
  exit_label = 0;
  implicit_main = false;
}

abbrev pub at_line : ℕ → List Instruction → List Opcode
at_line n [] = []
at_line n (i ∷ rest) = created i n ∷ at_line n rest

-- New opcodes, one after another.
abbrev pub emits : List Instruction → Parser → Parser
emits code p = record p { opcodes = p.opcodes ++ at_line p.line_number code }

abbrev pub parse_error : Parser → Parser
parse_error p = record p { error_count = p.error_count + 1 }

-- `label_stack_.push (Label (label_sequence_++))`.
abbrev pub push_label : Parser → Parser
push_label p = record p {
  label_stack = p.label_sequence ∷ p.label_stack;
  label_sequence = p.label_sequence + 1;
}

-- The same, and `break_stack_.push (label_stack_.top ())`.
abbrev pub push_break : Parser → Parser
push_break p = record p {
  label_stack = p.label_sequence ∷ p.label_stack;
  break_stack = p.label_sequence ∷ p.break_stack;
  label_sequence = p.label_sequence + 1;
}

-- The top of the label stack, popped, where the assertion holds that there is one.
abbrev pub top_of : List Label → Option (Label × List Label)
top_of [] = none
top_of (l ∷ ls) = some (l, ls)

abbrev pub with_labels : Parser → Option (Label × List Label) → Option (Label × Parser)
with_labels p none = none
with_labels p (some (l, ls)) = some (l, record p { label_stack = ls })

abbrev pub pop_label : Parser → Option (Label × Parser)
pop_label p = with_labels p (top_of p.label_stack)

abbrev pub with_breaks : Parser → Option (Label × List Label) → Option (Label × Parser)
with_breaks p none = none
with_breaks p (some (l, ls)) = some (l, record p { break_stack = ls })

abbrev pub pop_break : Parser → Option (Label × Parser)
pop_break p = with_breaks p (top_of p.break_stack)

module _ (mangle : Text → Text) where
  abbrev pub find_symbol : Text → List Symbol → Option Symbol
  find_symbol name [] = none
  find_symbol name (s ∷ rest) = if text_eq s.name name then some s else find_symbol name rest

  abbrev pub lookup : Text → Parser → Option Symbol
  lookup name p = find_symbol (mangle name) p.symbols

  -- The constructors of symbols, which add the symbol to the table.
  abbrev pub new_symbol : Text → SymbolKind → Parser → Symbol
  new_symbol name kind p = record {
    name = mangle name;
    id = p.count;
    line = p.line_number;
    kind = kind;
  }

  abbrev pub add_symbol : Symbol → Parser → Parser
  add_symbol s p = record p { symbols = p.symbols ++ s ∷ []; count = p.count + 1 }

  abbrev pub add_if : Bool → List Symbol → List Symbol → List Symbol
  add_if true new symbols = symbols ++ new
  add_if false new symbols = symbols

  abbrev pub one_more_if : Bool → ℕ → ℕ
  one_more_if true n = n + 1
  one_more_if false n = n

  -- Code outside of a definition, the first time.
  abbrev pub is_first_main : Parser → Bool
  is_first_main p = not (is_some p.current_definition || p.implicit_main)

  abbrev pub detect_main : Parser → Parser
  detect_main p =
      let first = is_first_main p in
      let taken = is_some (lookup (codes "main") p) in
      record p {
        error_count = one_more_if (first && taken) p.error_count;
        symbols = add_if (first && not taken) (new_symbol (codes "main") word p ∷ []) p.symbols;
        count = one_more_if (first && not taken) p.count;
        implicit_main = p.implicit_main || first;
      }

  abbrev pub f_exit : Parser → Parser
  f_exit p = emits (jump p.exit_label ∷ []) (detect_main p)

  abbrev pub recurse_in : Option Symbol → Parser → Parser
  recurse_in none p = parse_error p
  recurse_in (some s) p = emits (call s ∷ []) (detect_main p)

  abbrev pub f_recurse : Parser → Parser
  f_recurse p = recurse_in p.current_definition p

  -- What a word compiles to, by its kind.
  abbrev pub word_code : Symbol → List Instruction
  word_code s =
      if is_variable_symbol s.kind
      then load_symbol r0 s ∷ push r0 data_stack ∷ []
      else if is_intconstant_symbol s.kind
      then load_symbol_indirect r0 s ∷ push r0 data_stack ∷ []
      else if is_floatconstant_symbol s.kind
      then load_symbol_indirect r0 s ∷ push r0 float_stack ∷ []
      else call s ∷ []

  -- The symbol of a word, and whether it is new; a new one is external.
  abbrev pub word_symbol : Text → Parser → Option Symbol → Symbol
  word_symbol name p none = new_symbol name external p
  word_symbol name p (some s) = s

  abbrev pub f_word : Text → Parser → Parser
  f_word name p =
      let q = detect_main p in
      let found = lookup name q in
      let s = word_symbol name q found in
      let new = not (is_some found) in
      emits (word_code s)
        (record q { symbols = add_if new (s ∷ []) q.symbols; count = one_more_if new q.count })

  -- `f_definedword`: where the name is taken an error, and no definition begins.
  abbrev pub begin_word : Option Symbol → Text → Parser → Parser
  begin_word (some s) name p = parse_error p
  begin_word none name p =
      let s = new_symbol name word p in
      emits (define s ∷ []) (record (add_symbol s p) { current_definition = some s })

  abbrev pub f_definedword : Text → Parser → Parser
  f_definedword name p =
      begin_word (lookup name p) name (record (push_label p) { exit_label = p.label_sequence })

  -- `f_semicolon`: behind a definition that an error kept from beginning it only pops the label.
  abbrev pub push_anonword : Symbol → Parser → Parser
  push_anonword s p =
      if is_anonword_symbol s.kind
      then emits (load_symbol r0 s ∷ push r0 data_stack ∷ []) (detect_main p)
      else p

  abbrev pub end_word : Option Symbol → Label → Parser → Parser
  end_word none l p = p
  end_word (some s) l p =
      push_anonword s (emits (label l ∷ end_define s ∷ []) (record p { current_definition = none }))

  abbrev pub close_word : Option (Label × Parser) → Option Parser
  close_word none = none
  close_word (some (l, q)) = some (end_word q.current_definition l (record q { exit_label = 0 }))

  abbrev pub f_semicolon : Parser → Option Parser
  f_semicolon p = close_word (pop_label p)
