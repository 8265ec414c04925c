-- ===== src/Symbol.antt =====
-- compiler/symbol.h: the symbols that the tables and the opcodes name. A pointer to a symbol is the
-- symbol itself; two pointers are equal exactly when the ids are, which `Symbol::count` makes unique.
use vnpforth.Prelude.{ℕ, Bool, true, false, Text, ◌==◌}

pub data Units : Type 0 where
  character cell : Units

-- The concrete classes of symbol. A cell or character array is a variable of that size.
pub data SymbolKind : Type 0 where
  variable : ℕ → Units → SymbolKind
  int_constant float_constant external word anonword codeword : SymbolKind

pub record Symbol : Type 0 where
  pub name : Text
  pub id : ℕ
  pub line : ℕ
  pub kind : SymbolKind

unfoldable pub is_variable_symbol : SymbolKind → Bool
is_variable_symbol (variable _ _) = true
is_variable_symbol _ = false

unfoldable pub is_intconstant_symbol : SymbolKind → Bool
is_intconstant_symbol int_constant = true
is_intconstant_symbol _ = false

unfoldable pub is_floatconstant_symbol : SymbolKind → Bool
is_floatconstant_symbol float_constant = true
is_floatconstant_symbol _ = false

unfoldable pub is_external_symbol : SymbolKind → Bool
is_external_symbol external = true
is_external_symbol _ = false

unfoldable pub is_definable_symbol : SymbolKind → Bool
is_definable_symbol word = true
is_definable_symbol anonword = true
is_definable_symbol codeword = true
is_definable_symbol _ = false

unfoldable pub is_callable_symbol : SymbolKind → Bool
unfolding is_definable_symbol
is_callable_symbol external = true
is_callable_symbol k = is_definable_symbol k

unfoldable pub is_anonword_symbol : SymbolKind → Bool
is_anonword_symbol anonword = true
is_anonword_symbol _ = false

unfoldable pub is_codeword_symbol : SymbolKind → Bool
is_codeword_symbol codeword = true
is_codeword_symbol _ = false

-- The comparison of two pointers to symbols.
abbrev pub same_symbol : Symbol → Symbol → Bool
same_symbol s t = s.id == t.id
