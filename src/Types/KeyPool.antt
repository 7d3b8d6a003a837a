-- ===== src/Types/KeyPool.antt =====
-- `KeyPool` of src/relayer/src/types.rs: round-robin choice of a signing key.
-- The counter is a 64-bit atomic: `fetch_add` returns the old value and wraps around.
use nautilus_memwal_relayer.Prelude.{
  ℕ, ◌+◌, ◌%◌, ◌^◌, String, Option, none, some, List, [], ◌∷◌, length, get_elem?,
}

pub record KeyPool : Type 0 where
  pub keys : List String
  pub counter : ℕ

abbrev pub usize_mod : ℕ
usize_mod = 2 ^ 64

abbrev pub new : List String → KeyPool
new keys = record { keys = keys; counter = 0 }

-- `fetch_add(1, Relaxed)`
unfoldable pub fetch_add : ℕ → ℕ
fetch_add c = (c + 1) % usize_mod

index_of : List String → ℕ → Option ℕ
index_of [] c = none
index_of (k ∷ ks) c = some (c % length (k ∷ ks))

bumped : List String → ℕ → ℕ
unfolding fetch_add
bumped [] c = c
bumped (k ∷ ks) c = fetch_add c

unfoldable pub next_index : KeyPool → Option ℕ × KeyPool
unfolding index_of bumped
next_index p = (index_of p.keys p.counter, record p { counter = bumped p.keys p.counter })

key_at : List String → Option ℕ → Option String
key_at ks none = none
key_at ks (some i) = get_elem? ks i

unfoldable pub next : KeyPool → Option String × KeyPool
unfolding key_at next_index
next p = let (i, q) = next_index p in (key_at p.keys i, q)
