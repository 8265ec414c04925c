-- ===== src/Parser/Strings.antt =====
-- compiler/parser.cc: the terminal handlers of strings and of addresses of words. A string is a token
-- of the lexer: the word that begins it, a space, its bytes and the closing quote.
use vnpforth.Prelude.{ℕ, zero, suc, ◌%◌, ◌^◌, not, [], ◌∷◌, none, ltb, length, Text, if◌then◌else◌}
use vnpforth.Opcode.{r0, data_stack, load_data, load_value, load_symbol, push}
use vnpforth.Data.{DataType, plain_string, counted_string, new_data}
use vnpforth.Optimizer.Pass.{is_some}
use vnpforth.Parser.{
  Parser, emits, parse_error, lookup, word_symbol, detect_main, add_if, one_more_if,
}
use vnpforth.Parser.Conditions.{second_word}

-- `ss.erase (ss.begin (), ss.begin () + n)` and `ss.erase (ss.end () - 1)`.
unfoldable pub erase_front : ℕ → Text → Text
erase_front zero s = s
erase_front (suc n) [] = []
erase_front (suc n) (c ∷ s) = erase_front n s

unfoldable pub erase_last : Text → Text
erase_last [] = []
erase_last (c ∷ []) = []
erase_last (c ∷ d ∷ s) = c ∷ erase_last (d ∷ s)

unfoldable pub token_bytes : ℕ → Text → Text
unfolding erase_front erase_last
token_bytes n s = erase_last (erase_front n s)

-- A new datum of the table; its id is `Data::count`.
abbrev pub add_data : DataType → Text → Parser → Parser
add_data type chunk p = record p { dattable = new_data type chunk p.line_number p.dattable }

module _ (mangle : Text → Text) where
  -- The address and the length of a string.
  abbrev pub push_string : ℕ → Text → Parser → Parser
  push_string id ss p =
      emits
        (load_data r0 id
          ∷ push r0 data_stack
          ∷ load_value r0 (length ss % 2 ^ 32)
          ∷ push r0 data_stack
          ∷ [])
        p

  unfoldable pub f_string_literal : Text → Parser → Parser
  unfolding token_bytes new_data
  f_string_literal s p =
      let ss = token_bytes 3 s in
      push_string p.dattable.count ss (detect_main mangle (add_data plain_string ss p))

  -- A counted string has a byte for its length.
  abbrev pub counted : Text → Parser → Parser
  counted ss p =
      if ltb 255 (length ss)
      then parse_error p
      else emits (load_data r0 p.dattable.count ∷ push r0 data_stack ∷ [])
          (detect_main mangle (add_data counted_string ss p))

  unfoldable pub f_cstring : Text → Parser → Parser
  unfolding token_bytes new_data
  f_cstring s p = counted (token_bytes 3 s) p

  -- The word of that name, external where there is none.
  abbrev pub with_word : Text → Parser → Parser
  with_word name p =
      let new = not (is_some (lookup mangle name p)) in
      record p {
        symbols = add_if mangle new (word_symbol mangle name p none ∷ []) p.symbols;
        count = one_more_if mangle new p.count;
      }

  unfoldable pub f_object_address : Text → Parser → Parser
  unfolding second_word
  f_object_address s p =
      let name = second_word s in
      let q = detect_main mangle p in
      let symbol = word_symbol mangle name q (lookup mangle name q) in
      emits (load_symbol r0 symbol ∷ push r0 data_stack ∷ []) (with_word name q)
