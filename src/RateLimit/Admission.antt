-- ===== src/RateLimit/Admission.antt =====
-- Which requests the middleware of src/relayer/src/rate_limit.rs lets pass.
use nautilus_memwal_relayer.Prelude.{
  ℕ, suc, ◌≡◌, false, some, arith, if◌then◌else◌, String, Result, ok, err, str_eq,
}
use nautilus_memwal_relayer.Prelude.Int.{pos, leb_ℤ}
use nautilus_memwal_relayer.Types.{AuthInfo, RateLimitConfig}
use nautilus_memwal_relayer.Redis.{Redis}
use nautilus_memwal_relayer.World.State.{World}
use nautilus_memwal_relayer.World.Env.{Env, answered, refused}
use nautilus_memwal_relayer.World.Calls.{redis_call, spend, now}
use nautilus_memwal_relayer.RateLimit.Window.{prune_and_count, check_window, record_in_window}
use nautilus_memwal_relayer.RateLimit.Middleware.{
  check_layers, record_layers, rate_limit_middleware, dk_key, burst_key, hourly_key, minute, hour,
  dk_response, burst_response, sustained_response, TooManyRequests,
}
use nautilus_memwal_relayer.RateLimit.KeyNames.{dk-ne-hourly, burst-ne-hourly}

-- The count that a check of a layer finds, the key's other windows left aside.
abbrev pub layer_count : Env → ℕ → ℕ → ℕ → String → Redis → ℕ
layer_count env at call span key r = (prune_and_count at span key (env.clock call) r).0

-- The first layer, in the source's order, whose count has reached its limit.
abbrev pub verdict : RateLimitConfig → ℕ → ℕ → ℕ → Result TooManyRequests (Unit {0})
verdict config dk burst hourly =
    if leb_ℤ config.max_requests_per_delegate_key (pos dk)
    then err (dk_response config)
    else if leb_ℤ config.max_requests_per_minute (pos burst)
    then err (burst_response config)
    else if leb_ℤ config.max_requests_per_hour (pos hourly)
    then err (sustained_response config)
    else ok tt

module _ (env : Env) (config : RateLimitConfig) (answers : (n : ℕ) → env.redis n ≡ answered) where
  layers_verdict :
      (at : ℕ) (auth : AuthInfo) (w : World)
      → str_eq (dk_key auth) (burst_key auth) ≡ false
      → (check_layers env config at auth w).0
        ≡ verdict config
            (layer_count env at w.calls minute (dk_key auth) w.redis)
            (layer_count env at (suc w.calls) minute (burst_key auth) w.redis)
            (layer_count env at (suc (suc w.calls)) hour (hourly_key auth) w.redis)
  unfolding check_layers check_window redis_call prune_and_count
  layers_verdict at auth w apart = ground (
    arith,
    answers w.calls,
    answers (suc w.calls),
    answers (suc (suc w.calls)),
    dk-ne-hourly auth,
    burst-ne-hourly auth,
  )

-- While Redis answers, a request is refused exactly when the count of one of its three windows, as
-- they were before the request, has reached the layer's limit, and the first such layer is named;
-- the delegate-key window and the burst window must have different keys.
pub middleware-verdict :
    (env : Env) (config : RateLimitConfig) (auth : AuthInfo) (path : String) (w : World)
    → ((n : ℕ) → env.redis n ≡ answered)
    → str_eq (dk_key auth) (burst_key auth) ≡ false
    → let at = env.clock w.calls in
      (rate_limit_middleware env config (some auth) path w).0
      ≡ verdict config
          (layer_count env at (suc w.calls) minute (dk_key auth) w.redis)
          (layer_count env at (suc (suc w.calls)) minute (burst_key auth) w.redis)
          (layer_count env at (suc (suc (suc w.calls))) hour (hourly_key auth) w.redis)
unfolding rate_limit_middleware now record_layers record_in_window
middleware-verdict env config auth path w answers apart =
    let at = env.clock w.calls in
    ground (arith, layers_verdict env config answers at auth (spend w) apart)

-- While every call of Redis is refused, each request passes, whatever the limits are.
pub middleware_open :
    (env : Env) (config : RateLimitConfig) (auth : AuthInfo) (path message : String) (w : World)
    → ((n : ℕ) → env.redis n ≡ refused message)
    → (rate_limit_middleware env config (some auth) path w).0 ≡ ok tt
unfolding rate_limit_middleware now record_layers record_in_window check_layers check_window
    redis_call
middleware_open env config auth path message w refuses =
    ground
      (arith, refuses (suc w.calls), refuses (suc (suc w.calls)), refuses (suc (suc (suc w.calls))))
