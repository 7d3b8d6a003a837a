-- ===== src/RateLimit/QuotaLimit.antt =====
-- What `check_storage_quota` (src/relayer/src/rate_limit.rs) lets pass.
use nautilus_memwal_relayer.Prelude.{ℕ, ◌+◌, ◌^◌, ◌≤◌, ◌<◌, ◌≡◌, ◌↔◌, String, ok, arith}
use nautilus_memwal_relayer.Prelude.Int.{pos}
use nautilus_memwal_relayer.Types.{RateLimitConfig}
use nautilus_memwal_relayer.Db.Vectors.{storage_used}
use nautilus_memwal_relayer.VectorDb.{get_storage_used}
use nautilus_memwal_relayer.World.State.{World}
use nautilus_memwal_relayer.World.Env.{Env, answered}
use nautilus_memwal_relayer.World.Calls.{query}
use nautilus_memwal_relayer.RateLimit.Quota.{check_storage_quota}

-- With a positive quota and a database that answers, bytes are let through exactly when the stored
-- ones and they are within the quota together, as long as their sum is below 2^63.
pub quota-limit :
    (env : Env) (config : RateLimitConfig) (owner : String) (additional limit : ℕ) (w : World)
    → config.max_storage_bytes ≡ pos limit
    → 0 < limit
    → env.database w.calls ≡ answered
    → storage_used owner w.db.vectors + additional < 2 ^ 63
    → ((check_storage_quota env config owner additional w).0 ≡ ok tt)
      ↔ (storage_used owner w.db.vectors + additional ≤ limit)
unfolding check_storage_quota get_storage_used query
quota-limit env config owner additional limit w set some_limit up small = ground arith
