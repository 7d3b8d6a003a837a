-- ===== src/RateLimit/KeyNames.antt =====
-- The three Redis keys of a request (src/relayer/src/rate_limit.rs) and when they differ.
use Prim.Native.Char.{code}
use text.Mathlib.TextLemmas.{
  append_cancel_left, append_assoc as text_append_assoc, cons-append, head-eq_of_cons-eq,
}
use text.Mathlib.TextPositions.{len-append}
use nautilus_memwal_relayer.Prelude.{
  ◌≡◌, ap, sym, ◌∙◌, false, ◌<>◌, Bool-cases, inl, inr, arith, String, len, str_eq, eq_iff,
}
use nautilus_memwal_relayer.Types.{AuthInfo}
use nautilus_memwal_relayer.RateLimit.Middleware.{dk_key, burst_key, hourly_key}

-- The key of the hourly window is never the key of another window.
pub dk-ne-hourly : (a : AuthInfo) → str_eq (dk_key a) (hourly_key a) ≡ false
dk-ne-hourly a = elim (Bool-cases (str_eq (dk_key a) (hourly_key a))) [
  | inr e ↦ e
  | inl e ↦
      let tails : ◌≡◌ {A = String} ("dk:" <> a.public_key) ("hr:" <> a.owner) =
        append_cancel_left "rate:" _ _ (
          sym (text_append_assoc "rate:" "dk:" a.public_key)
          ∙ (eq_iff (dk_key a) (hourly_key a)).0 e
          ∙ text_append_assoc "rate:" "hr:" a.owner) in
      absurd (
        omega (
          arith,
          ap code (
              head-eq_of_cons-eq
                (sym (cons-append "d" "k:" a.public_key) ∙ tails ∙ cons-append "h" "r:" a.owner)),
        ))
]

pub burst-ne-hourly : (a : AuthInfo) → str_eq (burst_key a) (hourly_key a) ≡ false
burst-ne-hourly a = elim (Bool-cases (str_eq (burst_key a) (hourly_key a))) [
  | inr e ↦ e
  | inl e ↦
      let tails : a.owner ≡ "hr:" <> a.owner =
        append_cancel_left "rate:" _ _
          ((eq_iff (burst_key a) (hourly_key a)).0 e ∙ text_append_assoc "rate:" "hr:" a.owner) in
      absurd (omega (arith, ap len tails, len-append "hr:" a.owner))
]

pub str_eq_flip : (s t : String) → str_eq s t ≡ false → str_eq t s ≡ false
str_eq_flip s t h = ground (arith, eq_iff s t, eq_iff t s)
