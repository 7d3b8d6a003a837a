-- ===== src/Prelude/Contains.antt =====
-- A text contains each of its parts.
use Prim.Native.Nat.{ℕ, ◌+◌, ◌≤◌, compare as compare_ℕ, Ordering}
use Prim.Native.Char.{Char, code, len_utf8}
use Prim.Native.String.{String, [], ◌∷◌, ◌++◌, len, find, begins}
use Prim.Native.String.append
use Prim.Native.String.find
use Prim.Native.String.len
use mathlib.Core.Path.{◌≡◌, refl, ◌∙◌}
use mathlib.Core.Logic.{inl, inr}
use mathlib.Core.Bool.{true}
use native.Mathlib.Omega.{arith}
use text.Mathlib.TextFind.{begins_cases}
use nautilus_memwal_relayer.Prelude.Tests.{contains}

compare_refl : (n : ℕ) → compare_ℕ n n ≡ Ordering.eq
compare_refl n = ground arith

begins-append : (p v : String) (hit miss : ℕ) → begins (p ++ v) p hit miss ≡ hit
begins-append [] v hit miss = refl
begins-append (c ∷ p) v hit miss =
    rw (append.cons c p v, compare_refl (code c)) (begins-append p v hit miss)

find-at_once : (s t : String) → ((hit miss : ℕ) → begins s t hit miss ≡ hit) → find s t ≡ 0
find-at_once [] t h = find.nil t ∙ h 0 1
find-at_once (c ∷ s) t h = find.cons c s t ∙ h 0 (len_utf8 c + find s t)

find-later : (c : Char) (s t : String) → find s t ≤ len s → find (c ∷ s) t ≤ len (c ∷ s)
find-later c s t le = elim (begins_cases (c ∷ s) t 0 (len_utf8 c + find s t)) [
  | inl now ↦ omega (arith, find.cons c s t, now.0)
  | inr later ↦ omega (arith, find.cons c s t, later, len.cons c s, le)
]

find-infix-le : (u p v : String) → find (u ++ (p ++ v)) p ≤ len (u ++ (p ++ v))
find-infix-le [] p v =
    rw (append.nil (p ++ v)) (omega (arith, find-at_once (p ++ v) p (begins-append p v)))
find-infix-le (c ∷ u) p v =
    rw (append.cons c u (p ++ v)) (find-later c (u ++ (p ++ v)) p (find-infix-le u p v))

pub contains_part : (u p v : String) → contains (u ++ (p ++ v)) p ≡ true
contains_part u p v = ground (arith, find-infix-le u p v)
