-- ===== src/Db/Keys.antt =====
-- The table `delegate_key_cache` and its statements (src/relayer/src/db.rs).
use nautilus_memwal_relayer.Prelude.{
  ℕ, ◌+◌, ◌*◌, String, ◌&&◌, not, Option, List, [], ◌∷◌, retain, find_first, str_eq, ltb,
  if◌then◌else◌,
}
use mathlib.Core.Option

pub record CachedKey : Type 0 where
  pub public_key : String
  pub account_id : String
  pub owner : String
  pub expires_at : ℕ

-- 24 hours
abbrev pub cache_lifetime : ℕ
cache_lifetime = 24 * 60 * 60 * 1000

unfoldable pub cached_account : ℕ → String → List CachedKey → Option (String × String)
cached_account now public_key rows =
    Option.map (λ r. (r.account_id, r.owner))
      (find_first (λ r. str_eq r.public_key public_key && ltb now r.expires_at) rows)

unfoldable pub cache_key : ℕ → String → String → String → List CachedKey → List CachedKey
cache_key now public_key account_id owner [] =
    record {
      public_key = public_key;
      account_id = account_id;
      owner = owner;
      expires_at = now + cache_lifetime;
    }
    ∷ []
cache_key now public_key account_id owner (r ∷ rs) =
    if str_eq r.public_key public_key
    then record r { account_id = account_id; owner = owner; expires_at = now + cache_lifetime } ∷ rs
    else r ∷ cache_key now public_key account_id owner rs

unfoldable pub delete_key : String → List CachedKey → List CachedKey
delete_key public_key = retain (λ r. not (str_eq r.public_key public_key))

unfoldable pub evict_expired : ℕ → List CachedKey → List CachedKey
evict_expired now = retain (λ r. ltb now r.expires_at)
