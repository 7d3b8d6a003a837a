-- ===== src/RateLimit/Middleware.antt =====
-- `endpoint_weight` and `rate_limit_middleware` of src/relayer/src/rate_limit.rs.
use nautilus_memwal_relayer.Prelude.{
  ℕ, ◌+◌, ◌*◌, String, ◌<>◌, Option, none, some, Result, ok, err, str_eq, if◌then◌else◌,
}
use nautilus_memwal_relayer.Prelude.Int.{ℤ, pos, leb_ℤ}
use nautilus_memwal_relayer.Types.{AuthInfo, RateLimitConfig}
use nautilus_memwal_relayer.World.Env.{Env}
use nautilus_memwal_relayer.World.Action.{Action, ◌>>=◌, ◌>>◌, pure, fail, attempt}
use nautilus_memwal_relayer.World.Calls.{now}
use nautilus_memwal_relayer.RateLimit.Window.{check_window, record_in_window}

unfoldable pub endpoint_weight : String → ℕ
endpoint_weight path =
    if str_eq path "/api/analyze"
    then 10
    else if str_eq path "/api/remember"
    then 5
    else if str_eq path "/api/remember/manual"
    then 3
    else if str_eq path "/api/restore"
    then 3
    else if str_eq path "/api/ask"
    then 2
    else 1

pub data Layer : Type 0 where
  delegate_key account_burst account_sustained : Layer

-- The 429 response of `rate_limit_response`.
pub record TooManyRequests : Type 0 where
  pub layer : Layer
  pub limit : ℤ
  pub retry_after : ℕ

abbrev pub dk_key : AuthInfo → String
dk_key auth = "rate:dk:" <> auth.public_key

abbrev pub burst_key : AuthInfo → String
burst_key auth = "rate:" <> auth.owner

abbrev pub hourly_key : AuthInfo → String
hourly_key auth = "rate:hr:" <> auth.owner

abbrev pub minute : ℕ
minute = 60000

abbrev pub hour : ℕ
hour = 3600000

-- The `match` on a check: a failed check lets the request pass.
abbrev pub judge : TooManyRequests → Result String ℕ → Action TooManyRequests Unit
judge response (ok count) = if leb_ℤ response.limit (pos count) then fail response else pure tt
judge response (err e) = pure tt

module _ (config : RateLimitConfig) where
  abbrev pub dk_response : TooManyRequests
  dk_response = record {
    layer = delegate_key;
    limit = config.max_requests_per_delegate_key;
    retry_after = 60;
  }

  abbrev pub burst_response : TooManyRequests
  burst_response = record {
    layer = account_burst;
    limit = config.max_requests_per_minute;
    retry_after = 60;
  }

  abbrev pub sustained_response : TooManyRequests
  sustained_response = record {
    layer = account_sustained;
    limit = config.max_requests_per_hour;
    retry_after = 300;
  }

module _ (env : Env) (config : RateLimitConfig) where
  unfoldable pub check_layer : ℕ → ℕ → String → TooManyRequests → Action TooManyRequests Unit
  check_layer at span key response = do
    count ← attempt (check_window env at span key)
    judge response count

  -- The three layers, in the source's order.
  unfoldable pub check_layers : ℕ → AuthInfo → Action TooManyRequests Unit
  unfolding check_layer
  check_layers at auth = do
    check_layer at minute (dk_key auth) (dk_response config)
    check_layer at minute (burst_key auth) (burst_response config)
    check_layer at hour (hourly_key auth) (sustained_response config)

  -- The offsets 0.1 and 0.2 of the source are 100 and 200 microseconds.
  unfoldable pub record_layers : ℕ → ℕ → AuthInfo → Action TooManyRequests Unit
  record_layers at weight auth = do
    record_in_window env (at * 1000) weight 120 (dk_key auth)
    record_in_window env (at * 1000 + 100) weight 120 (burst_key auth)
    record_in_window env (at * 1000 + 200) weight 3700 (hourly_key auth)

  -- The middleware up to `next.run`: a success passes the request on.
  unfoldable pub rate_limit_middleware : Option AuthInfo → String → Action TooManyRequests Unit
  unfolding check_layers record_layers endpoint_weight
  rate_limit_middleware none path = pure tt
  rate_limit_middleware (some auth) path = do
    at ← now env
    check_layers at auth
    record_layers at (endpoint_weight path) auth
