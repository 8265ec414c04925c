-- ===== src/Mangler/Scan.antt =====
-- What the demanglers of compiler/mangler.cc do with the name of an entity, with the digits of a byte
-- and with a byte that is spelled by itself.
use vnpforth.Prelude.{
  ℕ, ◌+◌, ◌*◌, ◌/◌, ◌%◌, ◌<◌, Bool, true, false, not, ◌&&◌, ◌||◌, [], ◌∷◌, ◌++◌, none, some, ◌==◌,
  ==_iff, ==_refl, Text, ◌≡◌, ap, refl, arith, Option-cases, Bool-cases, inl, inr,
}
use vnpforth.Mangler.{
  is_digit, is_upper, find_entity, hex_digit, hex, position, hex_behind, untransform_hex,
  untransform_entity, strip_prefix,
}
use vnpforth.Mangler.Entities.{EntityTable, entities}
use vnpforth.Mangler.Spell.{all_names}

-- Two texts that differ before either ends: neither is a prefix of the other.
abbrev pub apart : Text → Text → Bool
apart (a ∷ s) (b ∷ t) = not (a == b) || apart s t
apart _ _ = false

abbrev pub all_apart : EntityTable → Bool
all_apart [] = true
all_apart ((key, name) ∷ rest) = all_names (apart name) rest && all_apart rest

strip_prefix_self : (n rest : Text) → strip_prefix n (n ++ rest) ≡ some rest
unfolding strip_prefix
strip_prefix_self [] rest = refl
strip_prefix_self (a ∷ n) rest = ground (arith, ==_refl a, strip_prefix_self n rest)

strip_prefix-apart : (n m rest : Text) → apart n m ≡ true → strip_prefix n (m ++ rest) ≡ none
unfolding strip_prefix
strip_prefix-apart [] [] rest h = absurd (cc)
strip_prefix-apart [] (b ∷ m) rest h = absurd (cc)
strip_prefix-apart (a ∷ n) [] rest h = absurd (cc)
strip_prefix-apart (a ∷ n) (b ∷ m) rest h = ground (arith, strip_prefix-apart n m rest)

names_apart : all_apart entities ≡ true
unfolding entities
names_apart = refl

apart_found :
    (n : Text) (c : ℕ) (table : EntityTable) {m : Text}
    → all_names (apart n) table ≡ true
    → find_entity c table ≡ some m
    → apart n m ≡ true
unfolding find_entity
apart_found n c [] h e = absurd (cc)
apart_found n c ((k, x) ∷ t) {m} h e = ground (arith, apart_found n c t {m = m})

untransform_entity-table :
    (c : ℕ) (table : EntityTable) {n : Text} (rest d : Text)
    → all_apart table ≡ true
    → find_entity c table ≡ some n
    → untransform_entity table (b'_' ∷ (n ++ rest)) d ≡ some (rest, d ++ (c ∷ []))
unfolding untransform_entity find_entity strip_prefix
untransform_entity-table c [] rest d h e = absurd (cc)
untransform_entity-table c ((k, x) ∷ t) {n} rest d h e = elim (Bool-cases (k == c)) [
  | inl q ↦
      let same : some x ≡ some n = rw q at e in
      let same' : x ≡ n = cc in
      let key : k ≡ c = (==_iff k c).0 q in rw (← same', ← key) (rw (strip_prefix_self x rest) refl)
  | inr q ↦
      let e' : find_entity c t ≡ some n = rw q at e in
      let here = strip_prefix-apart x n rest (apart_found x c t (ground arith) e') in
      rw here (untransform_entity-table c t rest d (ground arith) e')
]

-- An entity is demangled.
pub untransform_entity-name :
    (c : ℕ) {n : Text} (rest d : Text)
    → find_entity c entities ≡ some n
    → untransform_entity entities (b'_' ∷ (n ++ rest)) d ≡ some (rest, d ++ (c ∷ []))
untransform_entity-name c rest d e = untransform_entity-table c entities rest d names_apart e

abbrev pub begins_upper : Text → Bool
begins_upper [] = false
begins_upper (c ∷ s) = is_upper c

pub names_upper : all_names begins_upper entities ≡ true
unfolding entities
names_upper = refl

strip_prefix-upper :
    (n s : Text) → begins_upper n ≡ true → begins_upper s ≡ false → strip_prefix n s ≡ none
unfolding strip_prefix
strip_prefix-upper [] s h k = absurd (cc)
strip_prefix-upper (a ∷ n) [] h k = refl
strip_prefix-upper (a ∷ n) (b ∷ s) h k = ground arith

none_table :
    (table : EntityTable) (s d : Text)
    → all_names begins_upper table ≡ true
    → begins_upper s ≡ false
    → untransform_entity table (b'_' ∷ s) d ≡ none
unfolding untransform_entity strip_prefix
none_table [] s d h k = refl
none_table ((key, n) ∷ t) s d h k =
    let here = strip_prefix-upper n s (ground arith) k in
    rw here (none_table t s d (ground arith) k)

other_table :
    (table : EntityTable) (c : ℕ) (s d : Text)
    → (c == b'_') ≡ false
    → untransform_entity table (c ∷ s) d ≡ none
unfolding untransform_entity strip_prefix
other_table [] c s d h = refl
other_table ((key, n) ∷ t) c s d h = ground (arith, other_table t c s d h)

-- No entity begins with anything but an underscore and a capital.
pub untransform_entity-none :
    (s d : Text) → begins_upper s ≡ false → untransform_entity entities (b'_' ∷ s) d ≡ none
untransform_entity-none s d h = none_table entities s d names_upper h

pub untransform_entity-other :
    (c : ℕ) (s d : Text) → (c == b'_') ≡ false → untransform_entity entities (c ∷ s) d ≡ none
untransform_entity-other c s d h = other_table entities c s d h

position-hex_digit : (k : ℕ) → k < 16 → position (hex_digit k) hex ≡ some k
unfolding position hex_digit
position-hex_digit k h = ground arith

pub position-none : (c : ℕ) → is_digit c ≡ false → is_upper c ≡ false → position c hex ≡ none
unfolding position
position-none c h k = ground arith

-- The digits of a byte give the byte.
pub untransform_hex-digits :
    (c : ℕ) (rest d : Text)
    → c < 256
    → untransform_hex (b'_' ∷ b'x' ∷ hex_digit (c / 16 % 16) ∷ hex_digit (c % 16) ∷ rest) d
      ≡ some (rest, d ++ (c ∷ []))
unfolding untransform_hex hex_behind strip_prefix
untransform_hex-digits c rest d h =
    let sum : c / 16 % 16 * 16 + c % 16 ≡ c = omega arith in
    rw (position-hex_digit (c / 16 % 16) (omega arith), position-hex_digit (c % 16) (omega arith))
      (ap (λ x. some (rest, d ++ (x ∷ []))) sum)

pub untransform_hex-other :
    (c : ℕ) (s d : Text) → (c == b'_') ≡ false → untransform_hex (c ∷ s) d ≡ none
unfolding untransform_hex strip_prefix
untransform_hex-other c s d h = ground arith

pub untransform_hex-behind : (s d : Text) → untransform_hex (b'_' ∷ b'x' ∷ s) d ≡ hex_behind s d
unfolding untransform_hex strip_prefix
untransform_hex-behind s d = refl

pub untransform_hex-none :
    (c : ℕ) (s d : Text) → (c == b'x') ≡ false → untransform_hex (b'_' ∷ c ∷ s) d ≡ none
unfolding untransform_hex strip_prefix
untransform_hex-none c s d h = ground arith

pub untransform_hex_end : (d : Text) → untransform_hex (b'_' ∷ []) d ≡ none
unfolding untransform_hex strip_prefix
untransform_hex_end d = refl

pub hex_behind_nil : (d : Text) → hex_behind [] d ≡ none
unfolding hex_behind
hex_behind_nil d = refl

pub hex_behind_one : (a : ℕ) (d : Text) → hex_behind (a ∷ []) d ≡ none
unfolding hex_behind
hex_behind_one a d = refl

pub hex_behind-first : (a : ℕ) (s d : Text) → position a hex ≡ none → hex_behind (a ∷ s) d ≡ none
unfolding hex_behind
hex_behind-first a [] d h = refl
hex_behind-first a (b ∷ s) d h = rw h refl

pub hex_behind-second :
    (a b : ℕ) (s d : Text) → position b hex ≡ none → hex_behind (a ∷ b ∷ s) d ≡ none
unfolding hex_behind
hex_behind-second a b s d h = elim (Option-cases (position a hex)) [
  | inl e ↦ hex_behind-first a (b ∷ s) d e
  | inr (i, e) ↦ rw (e, h) refl
]
