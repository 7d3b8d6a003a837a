-- ===== src/Prelude/Numbers.antt =====
-- Rust's `str::parse` of whole numbers, and its `split` at commas.
use Prim.Native.Nat.{ℕ, ◌+◌, ◌-◌, ◌*◌, ◌^◌}
use Prim.Native.Char.{Char, code}
use Prim.Native.String.{String}
use mathlib.Core.Bool.{◌&&◌}
use mathlib.Core.List.{List, [], ◌∷◌}
use mathlib.Core.Option.{Option, none, some}
use nautilus_memwal_relayer.Prelude.Tests.{leb, ltb, nat_eq, if◌then◌else◌}
use nautilus_memwal_relayer.Prelude.Int.{ℤ, pos, sub_ℕ}

digits : ℕ → String → Option ℕ
digits acc String.[] = some acc
digits acc (String.◌∷◌ c s) =
    let d = code c in if leb 48 d && leb d 57 then digits (acc * 10 + (d - 48)) s else none

-- At least one digit.
some_digits : String → Option ℕ
unfolding digits
some_digits String.[] = none
some_digits (String.◌∷◌ c s) = digits 0 (String.◌∷◌ c s)

abbrev positive : Option ℕ → Option ℤ
positive none = none
positive (some n) = if ltb n (2 ^ 63) then some (pos n) else none

abbrev negative : Option ℕ → Option ℤ
negative none = none
negative (some n) = if leb n (2 ^ 63) then some (sub_ℕ 0 n) else none

unfoldable pub parse_i64 : String → Option ℤ
unfolding some_digits
parse_i64 String.[] = none
parse_i64 (String.◌∷◌ c s) =
    if nat_eq (code c) b'-'
    then negative (some_digits s)
    else if nat_eq (code c) b'+'
    then positive (some_digits s)
    else positive (some_digits (String.◌∷◌ c s))

abbrev below : ℕ → Option ℕ → Option ℕ
below bound none = none
below bound (some n) = if ltb n bound then some n else none

-- `str::parse` of an unsigned type of that many bits
unfoldable pub parse_unsigned : ℕ → String → Option ℕ
unfolding some_digits
parse_unsigned bits String.[] = none
parse_unsigned bits (String.◌∷◌ c s) =
    if nat_eq (code c) b'+'
    then below (2 ^ bits) (some_digits s)
    else below (2 ^ bits) (some_digits (String.◌∷◌ c s))

abbrev pub put_first : Char → List String → List String
put_first c [] = String.◌∷◌ c String.[] ∷ []
put_first c (part ∷ rest) = String.◌∷◌ c part ∷ rest

-- `split(',')`
unfoldable pub split_commas : String → List String
split_commas String.[] = String.[] ∷ []
split_commas (String.◌∷◌ c s) =
    let rest = split_commas s in if nat_eq (code c) b',' then String.[] ∷ rest else put_first c rest
