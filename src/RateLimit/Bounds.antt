-- ===== src/RateLimit/Bounds.antt =====
-- How far the windows of src/relayer/src/rate_limit.rs fill.
use nautilus_memwal_relayer.Prelude.{
  ℕ, ◌+◌, ◌*◌, ◌≤◌, ◌<◌, ◌≡◌, refl, false, [], some, length, arith, String, ok, str_eq, eq_refl,
}
use nautilus_memwal_relayer.Prelude.Int.{pos}
use nautilus_memwal_relayer.Types.{AuthInfo, RateLimitConfig}
use nautilus_memwal_relayer.World.State.{World}
use nautilus_memwal_relayer.World.Env.{Env, answered}
use nautilus_memwal_relayer.World.Calls.{redis_call, spend, now}
use nautilus_memwal_relayer.RateLimit.Window.{
  prune_and_count, add_and_expire, check_window, record_in_window,
}
use nautilus_memwal_relayer.RateLimit.Count.{length-add_scores-le}
use nautilus_memwal_relayer.RateLimit.Middleware.{
  check_layer, check_layers, record_layers, rate_limit_middleware, endpoint_weight, dk_key,
  burst_key, hourly_key, minute, hour, dk_response, burst_response, sustained_response,
  TooManyRequests,
}
use nautilus_memwal_relayer.RateLimit.KeyNames.{dk-ne-hourly, burst-ne-hourly, str_eq_flip}

module _ (env : Env) (config : RateLimitConfig) (answers : (n : ℕ) → env.redis n ≡ answered) where
  -- A layer that passes its check has its window below the limit.
  check_layer_passed :
      (at span : ℕ) (key : String) (response : TooManyRequests) (limit : ℕ) (w : World)
      → response.limit ≡ pos limit
      → (check_layer env config at span key response w).0 ≡ ok tt
      → length ((check_layer env config at span key response w).1.redis.windows key).scores < limit
  unfolding check_layer check_window redis_call prune_and_count
  check_layer_passed at span key response limit w e h = ground (arith, answers w.calls, eq_refl key)

  check_layer_frame :
      (at span : ℕ) (key : String) (response : TooManyRequests) (w : World) (j : String)
      → str_eq key j ≡ false
      → (check_layer env config at span key response w).1.redis.windows j ≡ w.redis.windows j
  unfolding check_layer check_window redis_call prune_and_count
  check_layer_frame at span key response w j apart = ground (arith, answers w.calls)

  record_succeeds :
      (base weight ttl : ℕ) (key : String) (w : World)
      → (record_in_window env {E = TooManyRequests} base weight ttl key w).0 ≡ ok tt
  unfolding record_in_window
  record_succeeds base weight ttl key w = refl

  -- Recording adds at most the weight to its window, and moves no other.
  record_adds :
      (base weight ttl : ℕ) (key : String) (w : World)
      → length
          ((record_in_window env {E = TooManyRequests} base weight ttl key w).1.redis.windows
            key).scores
        ≤ length (w.redis.windows key).scores + weight
  unfolding record_in_window redis_call add_and_expire
  record_adds base weight ttl key w = ground (
    arith,
    answers w.calls,
    eq_refl key,
    length-add_scores-le base weight (w.redis.windows key).scores,
    length-add_scores-le base weight [],
  )

  record_frame :
      (base weight ttl : ℕ) (key : String) (w : World) (j : String)
      → str_eq key j ≡ false
      → (record_in_window env {E = TooManyRequests} base weight ttl key w).1.redis.windows j
        ≡ w.redis.windows j
  unfolding record_in_window redis_call add_and_expire
  record_frame base weight ttl key w j apart = ground (arith, answers w.calls)

  module _ (auth : AuthInfo) (apart : str_eq (dk_key auth) (burst_key auth) ≡ false) (at : ℕ) where
    checks_bound :
        (dk burst hourly : ℕ) (w : World)
        → config.max_requests_per_delegate_key ≡ pos dk
        → config.max_requests_per_minute ≡ pos burst
        → config.max_requests_per_hour ≡ pos hourly
        → (check_layers env config at auth w).0 ≡ ok tt
        → (length ((check_layers env config at auth w).1.redis.windows (dk_key auth)).scores < dk)
          × (length ((check_layers env config at auth w).1.redis.windows (burst_key auth)).scores
              < burst)
          × (length ((check_layers env config at auth w).1.redis.windows (hourly_key auth)).scores
              < hourly)
    unfolding check_layers
    checks_bound dk burst hourly w e1 e2 e3 h =
        let w1 : World =
          (check_layer env config at minute (dk_key auth) (dk_response config) w).1 in
        let w2 : World =
          (check_layer env config at minute (burst_key auth) (burst_response config) w1).1 in
        ground (
          arith,
          check_layer_passed at minute (dk_key auth) (dk_response config) dk w e1,
          check_layer_passed at minute (burst_key auth) (burst_response config) burst w1 e2,
          check_layer_passed at hour (hourly_key auth) (sustained_response config) hourly w2 e3,
          check_layer_frame at minute (burst_key auth) (burst_response config) w1 (dk_key auth)
              (str_eq_flip (dk_key auth) (burst_key auth) apart),
          check_layer_frame at hour (hourly_key auth) (sustained_response config) w2 (dk_key auth)
              (str_eq_flip (dk_key auth) (hourly_key auth) (dk-ne-hourly auth)),
          check_layer_frame at hour (hourly_key auth) (sustained_response config) w2
              (burst_key auth)
              (str_eq_flip (burst_key auth) (hourly_key auth) (burst-ne-hourly auth)),
        )

    -- Recording in all three windows after the checks.
    records_bound :
        (weight d b h : ℕ) (w : World)
        → length (w.redis.windows (dk_key auth)).scores < d
        → length (w.redis.windows (burst_key auth)).scores < b
        → length (w.redis.windows (hourly_key auth)).scores < h
        → let after = (record_layers env config at weight auth w).1.redis in
          (length (after.windows (dk_key auth)).scores < d + weight)
          × (length (after.windows (burst_key auth)).scores < b + weight)
          × (length (after.windows (hourly_key auth)).scores < h + weight)
    unfolding record_layers
    records_bound weight d b h w hd hb hh =
        let w1 : World =
          (record_in_window env {E = TooManyRequests} (at * 1000) weight 120 (dk_key auth) w).1 in
        let w2 : World =
          (record_in_window env {E = TooManyRequests} (at * 1000 + 100) weight 120 (burst_key auth)
            w1).1 in
        ground (
          arith,
          record_succeeds (at * 1000) weight 120 (dk_key auth) w,
          record_succeeds (at * 1000 + 100) weight 120 (burst_key auth) w1,
          record_adds (at * 1000) weight 120 (dk_key auth) w,
          record_adds (at * 1000 + 100) weight 120 (burst_key auth) w1,
          record_adds (at * 1000 + 200) weight 3700 (hourly_key auth) w2,
          record_frame (at * 1000) weight 120 (dk_key auth) w (burst_key auth) apart,
          record_frame (at * 1000) weight 120 (dk_key auth) w (hourly_key auth) (dk-ne-hourly auth),
          record_frame (at * 1000 + 100) weight 120 (burst_key auth) w1 (hourly_key auth)
              (burst-ne-hourly auth),
          record_frame (at * 1000 + 100) weight 120 (burst_key auth) w1 (dk_key auth)
              (str_eq_flip (dk_key auth) (burst_key auth) apart),
          record_frame (at * 1000 + 200) weight 3700 (hourly_key auth) w2 (dk_key auth)
              (str_eq_flip (dk_key auth) (hourly_key auth) (dk-ne-hourly auth)),
          record_frame (at * 1000 + 200) weight 3700 (hourly_key auth) w2 (burst_key auth)
              (str_eq_flip (burst_key auth) (hourly_key auth) (burst-ne-hourly auth)),
        )

-- A request that passes leaves each of its three windows below the layer's limit plus the weight
-- of its endpoint, if Redis answers and the delegate-key window and the burst window have
-- different keys.
pub admitted_bound :
    (env : Env) (config : RateLimitConfig) (auth : AuthInfo) (path : String) (dk burst hourly : ℕ)
    (w : World)
    → ((n : ℕ) → env.redis n ≡ answered)
    → str_eq (dk_key auth) (burst_key auth) ≡ false
    → config.max_requests_per_delegate_key ≡ pos dk
    → config.max_requests_per_minute ≡ pos burst
    → config.max_requests_per_hour ≡ pos hourly
    → (rate_limit_middleware env config (some auth) path w).0 ≡ ok tt
    → let after = (rate_limit_middleware env config (some auth) path w).1.redis in
      (length (after.windows (dk_key auth)).scores < dk + endpoint_weight path)
      × (length (after.windows (burst_key auth)).scores < burst + endpoint_weight path)
      × (length (after.windows (hourly_key auth)).scores < hourly + endpoint_weight path)
unfolding rate_limit_middleware now
admitted_bound env config auth path dk burst hourly w answers apart e1 e2 e3 h =
    let at = env.clock w.calls in
    let w1 : World = (check_layers env config at auth (spend w)).1 in
    ground (
      arith,
      checks_bound env config answers auth apart at dk burst hourly (spend w) e1 e2 e3,
      records_bound env config answers auth apart at (endpoint_weight path) dk burst hourly w1,
    )
