-- ===== src/Parser/Declarations.antt =====
-- compiler/parser.cc: the terminal handlers of declarations and of code words. Where the name is taken
-- each counts an error and declares nothing.
use vnpforth.Prelude.{
  ℕ, ◌^◌, Bool, true, false, not, ◌&&◌, ◌||◌, [], ◌∷◌, Option, none, some, ◌==◌, leb, Text, text_eq,
  codes, if◌then◌else◌,
}
use vnpforth.Symbol.{
  Symbol, SymbolKind, character, cell, variable, int_constant, float_constant, codeword,
}
use vnpforth.Opcode.{
  r0, Stack, data_stack, float_stack, pop, store_symbol_indirect, define, end_define, assembly,
}
use vnpforth.Mangler.{lower, to_lower}
use vnpforth.Optimizer.Pass.{is_some}
use vnpforth.Parser.{Parser, emits, parse_error, lookup, new_symbol, add_symbol, detect_main}
use vnpforth.Parser.Literal.{Ranged, to_int}
use vnpforth.Parser.Conditions.{read_word}

-- The first word of the text, and it in lowercase.
unfoldable pub word_of : Text → Text
unfolding read_word
word_of s = (read_word s).0

unfoldable pub lower_word_of : Text → Text
unfolding word_of lower
lower_word_of s = to_lower (word_of s)

-- `size <= 0` of an `int`.
abbrev pub is_positive : ℕ → Bool
is_positive size = not (size == 0 || leb (2 ^ 31) size)

module _ (mangle : Text → Text) where
  -- A new symbol of the name, or an error.
  abbrev pub declare : Text → SymbolKind → Parser → Parser
  declare name kind p =
      if is_some (lookup mangle name p)
      then parse_error p
      else add_symbol mangle (new_symbol mangle name kind p) p

  abbrev pub f_definedvariable : Text → Parser → Parser
  f_definedvariable name p = declare name (variable 1 cell) p

  abbrev pub declare_array : Text → ℕ → Text → Parser → Parser
  declare_array name size type p =
      if text_eq type (codes "chars")
      then add_symbol mangle (new_symbol mangle name (variable size character) p) p
      else if text_eq type (codes "cells")
      then add_symbol mangle (new_symbol mangle name (variable size cell) p) p
      else parse_error p

  abbrev pub sized_array : Text → Ranged ℕ → Text → Parser → Parser
  sized_array name size type p =
      if is_some (lookup mangle name p)
      then parse_error p
      else if size.out_of_range || not (is_positive size.value)
      then parse_error p
      else declare_array name size.value type p

  unfoldable pub f_definedarray : ℕ → Text → Text → Text → Parser → Parser
  unfolding to_int word_of lower_word_of
  f_definedarray long_max s ssize type p =
      sized_array (word_of s) (to_int long_max ssize) (lower_word_of type) p

  -- A constant takes its value from a stack when the program runs.
  abbrev pub declare_constant : Text → SymbolKind → Stack → Parser → Parser
  declare_constant name kind stack p =
      if is_some (lookup mangle name p)
      then parse_error p
      else (let s = new_symbol mangle name kind p in
          emits (pop r0 stack ∷ store_symbol_indirect r0 s ∷ [])
            (detect_main mangle (add_symbol mangle s p)))

  abbrev pub f_definedconstant : Text → Parser → Parser
  f_definedconstant name p = declare_constant name int_constant data_stack p

  abbrev pub f_definedfconstant : Text → Parser → Parser
  f_definedfconstant name p = declare_constant name float_constant float_stack p

  abbrev pub f_codeword : Text → Parser → Parser
  f_codeword name p =
      if is_some (lookup mangle name p)
      then parse_error p
      else (let s = new_symbol mangle name codeword p in
          emits (define s ∷ []) (record (add_symbol mangle s p) { current_definition = some s }))

-- The line of assembler up to a comment that does not stand in a string. In a string a backslash
-- takes the next byte along; the first argument is whether the byte stands in a string.
unfoldable pub cut_comment : Bool → Text → Text
cut_comment in_string [] = []
cut_comment true (c ∷ []) = c ∷ []
cut_comment true (c ∷ d ∷ s) =
    let escaped = cut_comment true s in
    let inside = cut_comment true (d ∷ s) in
    let outside = cut_comment false (d ∷ s) in
    if c == b'\\' then c ∷ d ∷ escaped else if c == b'"' then c ∷ outside else c ∷ inside
cut_comment false (c ∷ s) =
    let inside = cut_comment true s in
    let outside = cut_comment false s in
    if c == b'\\' || c == b'#' then [] else if c == b'"' then c ∷ inside else c ∷ outside

abbrev pub is_blank : ℕ → Bool
is_blank c = c == 32 || c == 9

abbrev pub is_empty_text : Text → Bool
is_empty_text [] = true
is_empty_text (c ∷ s) = false

-- `ss.erase (ss.find_last_not_of (" \t") + 1)`
unfoldable pub trim_end : Text → Text
trim_end [] = []
trim_end (c ∷ s) =
    let rest = trim_end s in if is_blank c && is_empty_text rest then [] else c ∷ rest

abbrev pub emit_assembly : Text → Parser → Parser
emit_assembly ss p = if is_empty_text ss then p else emits (assembly ss ∷ []) p

unfoldable pub f_code : Text → Parser → Parser
unfolding cut_comment trim_end
f_code s p = emit_assembly (trim_end (cut_comment false s)) p

abbrev pub end_code : Option Symbol → Parser → Parser
end_code none p = p
end_code (some s) p = emits (end_define s ∷ []) (record p { current_definition = none })

abbrev pub f_end_code : Parser → Parser
f_end_code p = end_code p.current_definition p
