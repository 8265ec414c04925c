-- ===== src/Mangler/Tests.antt =====
-- Tests of `Mangler`, and witnesses of the theorems about it.
use vnpforth.Prelude.{◌<◌, true, some, length, Text, codes, ◌≡◌, refl, arith}
use vnpforth.Mangler.{lower, to_lower, strip_prefix, mangle, demangle}
use vnpforth.Mangler.Bounds.{length-mangle}
use vnpforth.Mangler.Identifier.{is_identifier, mangle-IsIdentifier}
use vnpforth.Mangler.RoundTrip.{IsPlain, demangle-mangle, mangle_injective}
use vnpforth.Mangler.Total.{demangle_total}
use vnpforth.Optimizer.Booleans.{mangled_true, mangled_false}

mangle_true : mangle (codes "TRUE") ≡ mangled_true
unfolding mangle
mangle_true = refl

mangle_false : mangle (codes "FALSE") ≡ mangled_false
unfolding mangle
mangle_false = refl

mangle_two_dup : mangle (codes "2DUP@") ≡ codes "v4_z2dup_Fetch"
unfolding mangle
mangle_two_dup = refl

-- `__main` and `main` are one symbol to the linker.
mangle_main : mangle (codes "__main") ≡ mangle (codes "main")
unfolding mangle
mangle_main = refl

-- A name that is read back as another one.
demangle_hex : demangle (mangle (codes "a_x41")) ≡ some (codes "aA")
unfolding mangle demangle
demangle_hex = refl

abbrev name : Text
name = codes "2Dup@ >_x"

name-IsPlain : IsPlain name
unfolding strip_prefix lower
name-IsPlain = record { bytes = refl; unrestricted = refl; readable = refl; short = omega arith }

demangle-mangle_example : demangle (mangle name) ≡ some (to_lower name)
demangle-mangle_example = demangle-mangle name name-IsPlain

abbrev other_name : Text
other_name = codes "2DUP@ >_x"

other_name-IsPlain : IsPlain other_name
unfolding strip_prefix lower
other_name-IsPlain = record {
  bytes = refl;
  unrestricted = refl;
  readable = refl;
  short = omega arith;
}

same_mangled : mangle name ≡ mangle other_name
unfolding mangle
same_mangled = refl

mangle_injective_example : to_lower name ≡ to_lower other_name
mangle_injective_example =
    mangle_injective name other_name name-IsPlain other_name-IsPlain same_mangled

length-mangle_example : length (mangle name) < 4096
length-mangle_example = length-mangle name

mangle-IsIdentifier_example : is_identifier (mangle name) ≡ true
mangle-IsIdentifier_example = mangle-IsIdentifier name

demangle_total_example : (t : Text) × (demangle (codes "v4__x4") ≡ some t)
demangle_total_example = demangle_total (codes "v4__x4")
