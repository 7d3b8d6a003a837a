-- ===== src/Server/Waiting.antt =====
-- The wait of src/relayer/src/main.rs for its sidecar.
use mathlib.Core.Path.{subst}
use nautilus_memwal_relayer.Prelude.{
  ℕ, zero, suc, ◌+◌, ◌≤◌, ◌<◌, ◌≡◌, refl, inl, inr, ◌⊎◌, true, false, none, some, Bool-cases,
  nat_eq, nat_eq_iff, arith,
}
use nautilus_memwal_relayer.World.Env.{Reply}
use nautilus_memwal_relayer.Server.Start.{wait_ready, is_healthy}

-- Of so many attempts from `from` on, that one is the first that is healthy.
abbrev pub IsFirst : (ℕ → Reply) → ℕ → ℕ → ℕ → Type 0
IsFirst health from left k =
    (from ≤ k)
    × (k < from + left)
    × (is_healthy (health k) ≡ true)
    × ((j : ℕ) → from ≤ j → j < k → is_healthy (health j) ≡ false)

-- What fails at an attempt and at all later ones up to a bound
and_later :
    (health : ℕ → Reply) (from bound : ℕ)
    → is_healthy (health from) ≡ false
    → ((j : ℕ) → suc from ≤ j → j < bound → is_healthy (health j) ≡ false)
    → (j : ℕ) → from ≤ j
    → j < bound
    → is_healthy (health j) ≡ false
and_later health from bound ill later j le lt = elim (Bool-cases (nat_eq j from)) [
  | inl same ↦ let here : j ≡ from = (nat_eq_iff j from).0 same in rw here ill
  | inr other ↦ later j (ground (arith, other, le)) lt
]

wait_ready-cases :
    (health : ℕ → Reply) (left from : ℕ)
    → ((k : ℕ) × (wait_ready health left from ≡ some k) × IsFirst health from left k)
      ⊎ ((wait_ready health left from ≡ none)
          × ((j : ℕ) → from ≤ j → j < from + left → is_healthy (health j) ≡ false))
unfolding wait_ready
wait_ready-cases health zero from = inr (refl, λ j le lt. absurd (omega arith))
wait_ready-cases health (suc left) from = elim (Bool-cases (is_healthy (health from))) [
  | inl well ↦
      inl (from, rw well refl, (omega arith, omega arith, well, λ j le lt. absurd (omega arith)))
  | inr ill ↦ elim (wait_ready-cases health left (suc from)) [
    | inl (k, found, (low, high, well, before)) ↦
        inl (k, rw ill found, (omega arith, omega arith, well, and_later health from k ill before))
    | inr (lost, all) ↦
        inr (
          rw ill lost,
          λ j le lt. and_later health from (suc from + left) ill all j le (omega arith),
        )
  ]
]

-- The attempt that the wait gives
pub wait_ready-IsFirst :
    (health : ℕ → Reply) (left from k : ℕ)
    → wait_ready health left from ≡ some k
    → IsFirst health from left k
wait_ready-IsFirst health left from k h = elim (wait_ready-cases health left from) [
  | inl (k', found, first) ↦ let same : k' ≡ k = cc in subst (IsFirst health from left) same first
  | inr (lost, all) ↦ (let none_found : ⊥ = cc in absurd none_found)
]
