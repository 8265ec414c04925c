-- ===== src/Mangler/Entities.antt =====
-- `get_entities` of compiler/mangler.cc.
use vnpforth.Prelude.{ℕ, List, [], ◌∷◌, Text, codes}

-- A `std::map` from `char`: its entries in ascending order of the keys.
abbrev pub EntityTable : Type 0
EntityTable = List (ℕ × Text)

unfoldable pub entities : EntityTable
entities =
    (b'!', codes "Store")
    ∷ (b'"', codes "Quote")
    ∷ (b'#', codes "Hash")
    ∷ (b'$', codes "Dollar")
    ∷ (b'%', codes "Percent")
    ∷ (b'&', codes "Amp")
    ∷ (b'\'', codes "Tick")
    ∷ (b'(', codes "Paren")
    ∷ (b')', codes "Closeparen")
    ∷ (b'*', codes "Star")
    ∷ (b'+', codes "Plus")
    ∷ (b',', codes "Comma")
    ∷ (b'-', codes "Minus")
    ∷ (b'.', codes "Dot")
    ∷ (b'/', codes "Slash")
    ∷ (b':', codes "Colon")
    ∷ (b';', codes "Semicolon")
    ∷ (b'<', codes "Less")
    ∷ (b'=', codes "Equals")
    ∷ (b'>', codes "Greater")
    ∷ (b'?', codes "Question")
    ∷ (b'@', codes "Fetch")
    ∷ (b'[', codes "Leftbracket")
    ∷ (b'\\', codes "Backslash")
    ∷ (b']', codes "Rightbracket")
    ∷ (b'^', codes "Caret")
    ∷ (b'`', codes "Backtick")
    ∷ (b'{', codes "Leftbrace")
    ∷ (b'|', codes "Or")
    ∷ (b'}', codes "Rightbrace")
    ∷ (b'~', codes "Tilde")
    ∷ []
