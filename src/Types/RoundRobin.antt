-- ===== src/Types/RoundRobin.antt =====
-- The order in which `KeyPool` (src/relayer/src/types.rs) hands out its keys.
use nautilus_memwal_relayer.Prelude.{
  ℕ, zero, suc, ◌+◌, ◌%◌, ◌^◌, ◌<◌, ◌≡◌, refl, ap, String, some, List, [], ◌∷◌, length, get_elem?,
  arith,
}
use nautilus_memwal_relayer.Types.KeyPool.{KeyPool, new, next, next_index, fetch_add}

-- The pool after so many calls
unfoldable pub advance : ℕ → KeyPool → KeyPool
advance zero p = p
advance (suc n) p = (next_index (advance n p)).1

get_elem-lt {ℓ} :
    {A : Type ℓ} (xs : List A) (i : ℕ) → i < length xs → (x : A) × (get_elem? xs i ≡ some x)
get_elem-lt [] i h = let none_below : ⊥ = omega (arith, h) in elim none_below [ ]
get_elem-lt (x ∷ xs) zero h = (x, refl)
get_elem-lt (x ∷ xs) (suc i) h = get_elem-lt xs i (omega (arith, h))

advance-counter :
    (k : String) (ks : List String) (n : ℕ)
    → n < 2 ^ 64
    → advance n (new (k ∷ ks)) ≡ record { keys = k ∷ ks; counter = n }
unfolding advance next_index fetch_add
advance-counter k ks zero h = refl
advance-counter k ks (suc n) h =
    let fits : (n + 1) % 2 ^ 64 ≡ suc n = omega (arith, h) in
    rw (advance-counter k ks n (omega (arith, h)))
      (ap (λ c. record { keys = k ∷ ks; counter = c }) fits)

-- From a new pool with some keys, the calls hand out the keys in their order, over and over: call
-- number `n`, from 0 and below 2^64, gives the key at position `n` modulo the number of keys, which
-- there is.
pub round_robin :
    (k : String) (ks : List String) (n : ℕ)
    → n < 2 ^ 64
    → (key : String) × (get_elem? (k ∷ ks) (n % length (k ∷ ks)) ≡ some key)
      × ((next (advance n (new (k ∷ ks)))).0 ≡ some key)
unfolding next next_index
round_robin k ks n h =
    let (key, p) = get_elem-lt (k ∷ ks) (n % length (k ∷ ks)) (omega arith) in
    (key, p, rw (advance-counter k ks n h) p)
