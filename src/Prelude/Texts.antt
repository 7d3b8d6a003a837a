-- ===== src/Prelude/Texts.antt =====
-- Rust's `str::trim` and `str::lines`.
use Prim.Native.Char.{Char, code}
use Prim.Native.String.{String}
use mathlib.Core.Path.{◌≡◌, refl}
use mathlib.Core.Bool.{Bool, false, ◌&&◌, ◌||◌}
use mathlib.Core.List.{List, [], ◌∷◌}
use mathlib.Core.Logic.{inl, inr}
use nautilus_memwal_relayer.Prelude.Tests.{leb, nat_eq, if◌then◌else◌, Bool-cases}

-- The property `White_Space`
unfoldable pub is_whitespace : Char → Bool
is_whitespace c =
    let n = code c in
    leb 9 n && leb n 13
    || nat_eq n 32
    || nat_eq n 0x85
    || nat_eq n 0xA0
    || nat_eq n 0x1680
    || leb 0x2000 n && leb n 0x200A
    || nat_eq n 0x2028
    || nat_eq n 0x2029
    || nat_eq n 0x202F
    || nat_eq n 0x205F
    || nat_eq n 0x3000

unfoldable pub trim_start : String → String
trim_start String.[] = String.[]
trim_start (String.◌∷◌ c s) =
    let rest = trim_start s in if is_whitespace c then rest else String.◌∷◌ c s

-- A character in front of an end that has been trimmed
abbrev pub before_end : Char → String → String
before_end c String.[] = if is_whitespace c then String.[] else String.◌∷◌ c String.[]
before_end c (String.◌∷◌ d s) = String.◌∷◌ c (String.◌∷◌ d s)

unfoldable pub trim_end : String → String
trim_end String.[] = String.[]
trim_end (String.◌∷◌ c s) = before_end c (trim_end s)

unfoldable pub trim : String → String
unfolding trim_start trim_end
trim s = trim_end (trim_start s)

abbrev starts_line : String → Bool
starts_line String.[] = false
starts_line (String.◌∷◌ c s) = nat_eq (code c) b'\n'

abbrev put_before : Char → List String → List String
put_before c [] = String.◌∷◌ c String.[] ∷ []
put_before c (line ∷ rest) = String.◌∷◌ c line ∷ rest

-- Lines end in a line feed, with a carriage return before it or none; the last one may have no end.
unfoldable pub lines : String → List String
lines String.[] = []
lines (String.◌∷◌ c s) =
    let rest = lines s in
    if nat_eq (code c) b'\n'
    then String.[] ∷ rest
    else if nat_eq (code c) b'\r' && starts_line s
    then rest
    else put_before c rest

starts_in_text :
    (c : Char) (s : String) → is_whitespace c ≡ false → trim_start (String.◌∷◌ c s) ≡ String.◌∷◌ c s
unfolding trim_start
starts_in_text c s h = rw h refl

before_end-text :
    (c : Char) (s : String) → is_whitespace c ≡ false → before_end c s ≡ String.◌∷◌ c s
before_end-text c String.[] h = rw h refl
before_end-text c (String.◌∷◌ d s) h = refl

trim_end-before_end :
    (c : Char) (s : String) → trim_end s ≡ s → trim_end (before_end c s) ≡ before_end c s
unfolding trim_end
trim_end-before_end c String.[] h = elim (Bool-cases (is_whitespace c)) [
  | inl blank ↦ rw blank refl
  | inr text ↦ rw (text, text) refl
]
trim_end-before_end c (String.◌∷◌ d s) h = rw h refl

trim_end_idem : (s : String) → trim_end (trim_end s) ≡ trim_end s
unfolding trim_end
trim_end_idem String.[] = refl
trim_end_idem (String.◌∷◌ c s) = trim_end-before_end c (trim_end s) (trim_end_idem s)

trim_start-cases : (s : String) → trim_start (trim_end (trim_start s)) ≡ trim_end (trim_start s)
unfolding trim_start trim_end
trim_start-cases String.[] = refl
trim_start-cases (String.◌∷◌ c s) = elim (Bool-cases (is_whitespace c)) [
  | inl blank ↦ rw blank (trim_start-cases s)
  | inr text ↦ rw (text, before_end-text c (trim_end s) text) (starts_in_text c (trim_end s) text)
]

-- A trimmed text has nothing more to trim.
pub trim_idem : (s : String) → trim (trim s) ≡ trim s
unfolding trim
trim_idem s = rw (trim_start-cases s) (trim_end_idem (trim_start s))

pub trim-nil : trim "" ≡ ""
unfolding trim trim_start trim_end
trim-nil = refl
