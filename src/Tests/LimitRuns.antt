-- ===== src/Tests/LimitRuns.antt =====
-- Runs of src/relayer/src/rate_limit.rs and types.rs.
use nautilus_memwal_relayer.Prelude.{
  ◌+◌, ◌%◌, ◌≡◌, ◌≤◌, ◌<◌, ◌↔◌, refl, String, List, [], ◌∷◌, some, ok, length, get_elem?, arith,
}
use nautilus_memwal_relayer.Redis.{empty}
use nautilus_memwal_relayer.Db.Vectors.{storage_used}
use nautilus_memwal_relayer.World.Env.{Env, refused}
use nautilus_memwal_relayer.World.Calls.{redis_call, now}
use nautilus_memwal_relayer.RateLimit.Window.{add_and_expire, check_window, record_in_window}
use nautilus_memwal_relayer.RateLimit.Middleware.{
  rate_limit_middleware, endpoint_weight, dk_key, burst_key, hourly_key, minute, hour,
}
use nautilus_memwal_relayer.RateLimit.Admission.{
  layer_count, verdict, middleware-verdict, middleware_open,
}
use nautilus_memwal_relayer.RateLimit.Bounds.{admitted_bound}
use nautilus_memwal_relayer.RateLimit.Expiry.{record_twice}
use nautilus_memwal_relayer.RateLimit.Quota.{check_storage_quota}
use nautilus_memwal_relayer.RateLimit.QuotaLimit.{quota-limit}
use nautilus_memwal_relayer.Types.KeyPool.{new, next}
use nautilus_memwal_relayer.Types.RoundRobin.{advance, round_robin}
use nautilus_memwal_relayer.Tests.Sample.{env, limits, auth, world}

middleware-verdict_example :
    (rate_limit_middleware env limits (some auth) "/api/ask" world).0
    ≡ verdict limits
        (layer_count env 1000000 1 minute (dk_key auth) world.redis)
        (layer_count env 1000000 2 minute (burst_key auth) world.redis)
        (layer_count env 1000000 3 hour (hourly_key auth) world.redis)
middleware-verdict_example = middleware-verdict env limits auth "/api/ask" world (λ n. refl) refl

abbrev down : Env
down = record env { redis = λ n. refused "down" }

middleware_open_example : (rate_limit_middleware down limits (some auth) "/api/ask" world).0 ≡ ok tt
middleware_open_example = middleware_open down limits auth "/api/ask" "down" world (λ n. refl)

request_passes : (rate_limit_middleware env limits (some auth) "/api/ask" world).0 ≡ ok tt
unfolding rate_limit_middleware now redis_call check_window record_in_window
request_passes = refl

admitted_bound_example :
    let after = (rate_limit_middleware env limits (some auth) "/api/ask" world).1.redis in
    (length (after.windows (dk_key auth)).scores < 30 + endpoint_weight "/api/ask")
    × (length (after.windows (burst_key auth)).scores < 60 + endpoint_weight "/api/ask")
    × (length (after.windows (hourly_key auth)).scores < 500 + endpoint_weight "/api/ask")
admitted_bound_example =
    admitted_bound env limits auth "/api/ask" 30 60 500 world (λ n. refl) refl refl refl refl
      request_passes

record_twice_example :
    ((add_and_expire 1000 10 120 "k" 1 (add_and_expire 1000 1 120 "k" 1 empty)).windows "k").scores
    ≡ ((add_and_expire 1000 10 120 "k" 1 empty).windows "k").scores
record_twice_example = record_twice 1000 1 10 120 120 1 1 "k" empty (omega arith)

quota-limit_example :
    ((check_storage_quota env limits "alice" 20 world).0 ≡ ok tt)
    ↔ (storage_used "alice" world.db.vectors + 20 ≤ 100)
unfolding storage_used
quota-limit_example =
    quota-limit env limits "alice" 20 100 world refl (omega arith) refl (omega arith)

abbrev two_keys : List String
two_keys = "k0" ∷ "k1" ∷ []

round_robin_example :
    (key : String) × (get_elem? two_keys (5 % length two_keys) ≡ some key)
    × ((next (advance 5 (new two_keys))).0 ≡ some key)
round_robin_example = round_robin "k0" ("k1" ∷ []) 5 (omega arith)
