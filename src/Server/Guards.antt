-- ===== src/Server/Guards.antt =====
-- The middleware of the protected routes (src/relayer/src/auth.rs and rate_limit.rs) changes nothing but
-- Redis, the cache of delegate keys and the number of calls.
use nautilus_memwal_relayer.Prelude.{ℕ, ◌+◌, ◌*◌, refl, String, Bool, true, false, some, arith}
use nautilus_memwal_relayer.Types.{AuthInfo, Config, RateLimitConfig}
use nautilus_memwal_relayer.World.Env.{Env}
use nautilus_memwal_relayer.World.Action.{◌>>◌, lift}
use nautilus_memwal_relayer.World.Calls.{now, redis_call, spend}
use nautilus_memwal_relayer.World.Rules.{stores}
use nautilus_memwal_relayer.World.Keeps.{Keeps, Keeps-bind}
use nautilus_memwal_relayer.Auth.Verify.{
  Request, Rejection, ensure, read_headers, read_body, signature_holds, claim_nonce, attach_auth,
  claim_and_attach, check_signed, verify_signature,
}
use nautilus_memwal_relayer.Auth.Quiet.{IsQuiet-attach_auth}
use nautilus_memwal_relayer.RateLimit.Window.{check_window, record_in_window}
use nautilus_memwal_relayer.RateLimit.Middleware.{
  TooManyRequests, check_layer, check_layers, record_layers, rate_limit_middleware, dk_key,
  burst_key, hourly_key, minute, hour, dk_response, burst_response, sustained_response,
  endpoint_weight,
}

module _ (env : Env) where
  Keeps-headers : (request : Request) → Keeps stores (read_headers env request)
  unfolding read_headers now
  Keeps-headers request w = ground arith

  Keeps-ensure : (b : Bool) (r : Rejection) → Keeps stores (ensure b r)
  Keeps-ensure true r w = refl
  Keeps-ensure false r w = refl

  Keeps-claim : (nonce : String) → Keeps stores (claim_nonce env nonce)
  unfolding claim_nonce redis_call
  Keeps-claim nonce w = ground arith

  module _ (config : Config) (fuel : ℕ) where
    pub Keeps-verify : (request : Request) → Keeps stores (verify_signature env config fuel request)
    unfolding verify_signature check_signed claim_and_attach
    Keeps-verify request =
        Keeps-bind stores (read_headers env request) (check_signed env config fuel request)
          (Keeps-headers request)
          (λ signed.
            Keeps-bind stores (lift (read_body request.body)) _ (λ w. refl)
              (λ body.
                Keeps-bind stores (ensure (signature_holds env request signed body) _)
                  (λ _. claim_and_attach env config fuel signed body) (Keeps-ensure _ _)
                  (λ _.
                    Keeps-bind stores (claim_nonce env signed.nonce)
                      (λ _. attach_auth env config fuel signed body) (Keeps-claim signed.nonce)
                      (λ _ w. (IsQuiet-attach_auth env config fuel signed body w).kept))))

  module _ (config : RateLimitConfig) where
    Keeps-check :
        (at span : ℕ) (key : String) (r : TooManyRequests)
        → Keeps stores (check_layer env config at span key r)
    unfolding check_layer check_window redis_call
    Keeps-check at span key r w = ground arith

    Keeps-record :
        (base weight ttl : ℕ) (key : String)
        → Keeps stores (record_in_window env {E = TooManyRequests} base weight ttl key)
    unfolding record_in_window redis_call
    Keeps-record base weight ttl key w = ground arith

    Keeps-layers : (at : ℕ) (auth : AuthInfo) → Keeps stores (check_layers env config at auth)
    unfolding check_layers
    Keeps-layers at auth =
        let dk = check_layer env config at minute (dk_key auth) (dk_response config) in
        let burst = check_layer env config at minute (burst_key auth) (burst_response config) in
        let hourly = check_layer env config at hour (hourly_key auth) (sustained_response config) in
        Keeps-bind stores dk (λ _. burst >> hourly)
          (Keeps-check at minute (dk_key auth) (dk_response config))
          (λ _.
            Keeps-bind stores burst (λ _. hourly)
              (Keeps-check at minute (burst_key auth) (burst_response config))
              (λ _. Keeps-check at hour (hourly_key auth) (sustained_response config)))

    Keeps-records :
        (at weight : ℕ) (auth : AuthInfo) → Keeps stores (record_layers env config at weight auth)
    unfolding record_layers
    Keeps-records at weight auth =
        let dk = record_in_window env {E = TooManyRequests} (at * 1000) weight 120 (dk_key auth) in
        let burst =
          record_in_window env {E = TooManyRequests} (at * 1000 + 100) weight 120
            (burst_key auth) in
        let hourly =
          record_in_window env {E = TooManyRequests} (at * 1000 + 200) weight 3700
            (hourly_key auth) in
        Keeps-bind stores dk (λ _. burst >> hourly) (Keeps-record _ _ _ _)
          (λ _.
            Keeps-bind stores burst (λ _. hourly) (Keeps-record _ _ _ _)
              (λ _. Keeps-record _ _ _ _))

    pub Keeps-limit :
        (auth : AuthInfo) (path : String)
        → Keeps stores (rate_limit_middleware env config (some auth) path)
    unfolding rate_limit_middleware now
    Keeps-limit auth path w =
        Keeps-bind stores (check_layers env config (env.clock w.calls) auth)
          (λ _. record_layers env config (env.clock w.calls) (endpoint_weight path) auth)
          (Keeps-layers (env.clock w.calls) auth)
          (λ _. Keeps-records (env.clock w.calls) (endpoint_weight path) auth) (spend w)
