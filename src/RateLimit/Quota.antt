-- ===== src/RateLimit/Quota.antt =====
-- `check_storage_quota` of src/relayer/src/rate_limit.rs.
use nautilus_memwal_relayer.Prelude.{ℕ, String, if◌then◌else◌}
use nautilus_memwal_relayer.Prelude.Int.{pos, as_i64, add_i64, leb_ℤ, ltb_ℤ}
use nautilus_memwal_relayer.Types.{AppError, quota_exceeded, RateLimitConfig}
use nautilus_memwal_relayer.World.Env.{Env}
use nautilus_memwal_relayer.World.Action.{Action, ◌>>=◌, pure, fail}
use nautilus_memwal_relayer.VectorDb.{get_storage_used}

-- The message's megabyte figures are left out.
abbrev pub over_quota : AppError
over_quota = quota_exceeded "Storage quota exceeded"

module _ (env : Env) (config : RateLimitConfig) where
  unfoldable pub check_storage_quota : String → ℕ → Action AppError Unit
  check_storage_quota owner additional_bytes =
      if leb_ℤ config.max_storage_bytes (pos 0) then pure tt else do
        used ← get_storage_used env owner
        let projected = add_i64 (as_i64 used) (as_i64 additional_bytes)
        if ltb_ℤ config.max_storage_bytes projected then fail over_quota else pure tt
