-- ===== src/Routes/Truncate.antt =====
-- `truncate_str` of src/relayer/src/routes.rs.
use Prim.Native.String.{slice}
use text.Mathlib.TextBridge.{IsPrefix}
use text.Mathlib.TextLemmas.{append-nil}
use text.Mathlib.Text.{is_char_boundary}
use text.Mathlib.TextEquality.{slice-prefix}
use text.Mathlib.TextPositions.{boundary-zero, len-append}
use nautilus_memwal_relayer.Prelude.{
  ℕ, zero, suc, ◌≤◌, ◌≡◌, sym, ap, ◌∙◌, ◌≢◌, String, true, false, len, leb, if◌then◌else◌, arith,
  inl, inr, Bool-cases, leb→le,
}

-- The loop `while !s.is_char_boundary(end) { end -= 1; }`. In front of the text is a boundary, so it
-- never goes below 0.
unfoldable pub boundary_below : String → ℕ → ℕ
boundary_below s zero = zero
boundary_below s (suc n) =
    let rest = boundary_below s n in if is_char_boundary s (suc n) then suc n else rest

unfoldable pub truncate_str : String → ℕ → String
unfolding boundary_below
truncate_str s max_bytes =
    if leb (len s) max_bytes then s else slice s 0 (boundary_below s max_bytes)

boundary_below-le : (s : String) (n : ℕ) → boundary_below s n ≤ n
unfolding boundary_below
boundary_below-le s zero = omega arith
boundary_below-le s (suc n) = ground (arith, boundary_below-le s n)

boundary_below-boundary : (s : String) (n : ℕ) → is_char_boundary s (boundary_below s n) ≡ true
unfolding boundary_below
boundary_below-boundary s zero = boundary-zero s
boundary_below-boundary s (suc n) = elim (Bool-cases (is_char_boundary s (suc n))) [
  | inl here ↦ rw here here
  | inr inside ↦ rw inside (boundary_below-boundary s n)
]

-- At a boundary, what is in front of it is as long as it says.
len-slice : (s : String) (k : ℕ) → is_char_boundary s k ≡ true → len (slice s 0 k) ≡ k
len-slice s k h = ground arith

-- No boundary up to there is beyond it.
boundary_below-greatest :
    (s : String) (n k : ℕ) → k ≤ n → is_char_boundary s k ≡ true → k ≤ boundary_below s n
unfolding boundary_below
boundary_below-greatest s zero k le h = le
boundary_below-greatest s (suc n) k le h = elim (Bool-cases (is_char_boundary s (suc n))) [
  | inl here ↦ rw here le
  | inr inside ↦
      let apart : k ≢ suc n =
        λ e. let bad : true ≡ false = sym h ∙ ap (is_char_boundary s) e ∙ inside in cc in
      rw inside (boundary_below-greatest s n k (omega (arith, apart)) h)
]

len-prefix : (p s : String) → IsPrefix p s → len p ≤ len s
len-prefix p s (rest, e) = omega (arith, ap len e, len-append p rest)

-- What is left of a text is its beginning, at most as many bytes long as allowed, and as long as it
-- can be: every place up to the limit where the text can be cut lies inside it.
pub truncate_str-longest :
    (s : String) (max_bytes : ℕ)
    → IsPrefix (truncate_str s max_bytes) s
      × (len (truncate_str s max_bytes) ≤ max_bytes)
      × ((k : ℕ) → k ≤ max_bytes → is_char_boundary s k ≡ true → k ≤ len (truncate_str s max_bytes))
unfolding truncate_str
truncate_str-longest s max_bytes = elim (Bool-cases (leb (len s) max_bytes)) [
  | inl fits ↦ rw fits (
    ("", append-nil s),
    leb→le (len s) max_bytes fits,
    λ k le h. omega (arith, len-slice s k h, len-prefix (slice s 0 k) s (slice-prefix s k)),
  )
  | inr cut ↦
      let at = boundary_below s max_bytes in
      let long = len-slice s at (boundary_below-boundary s max_bytes) in
      rw cut (
        slice-prefix s at,
        omega (arith, long, boundary_below-le s max_bytes),
        λ k le h. omega (arith, long, boundary_below-greatest s max_bytes k le h),
      )
]
