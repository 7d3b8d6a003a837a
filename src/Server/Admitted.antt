-- ===== src/Server/Admitted.antt =====
-- Which requests reach a handler of a protected route (src/relayer/src/main.rs).
use nautilus_memwal_relayer.Prelude.{ℕ, ◌≡◌, refl, Bool, true, false, Option, some, Result, ok, err}
use nautilus_memwal_relayer.Types.{AuthInfo, Bytes, Config}
use nautilus_memwal_relayer.World.State.{World}
use nautilus_memwal_relayer.World.Env.{Env}
use nautilus_memwal_relayer.Auth.Verify.{Request, Rejection, Signed, verify_signature}
use nautilus_memwal_relayer.Auth.Accepted.{Accepted, verify_signature-Accepted}
use nautilus_memwal_relayer.RateLimit.Middleware.{TooManyRequests, rate_limit_middleware}
use nautilus_memwal_relayer.Enclave.KeyPair.{EnclaveKeyPair}
use nautilus_memwal_relayer.Server.Requests.{Fields}
use nautilus_memwal_relayer.Server.Router.{
  Route, Answer, Response, rejected, limited, path_of, after_limit, after_auth, serve,
}

-- A response that a layer gave instead of the handler
abbrev pub is_refusal : Response → Bool
is_refusal (rejected e) = true
is_refusal (limited e) = true
is_refusal _ = false

module _ (env : Env) (config : Config) (parse : Bytes → Option Fields) (to_json : Answer → Bytes)
    (kp : EnclaveKeyPair) where
  after_limit-ok :
      (route : Route) (auth : AuthInfo) (body : Bytes)
      (limit : Result {0, 0} TooManyRequests Unit × World)
      → is_refusal (after_limit env config parse to_json kp route auth body limit).0 ≡ false
      → limit.0 ≡ ok tt
  after_limit-ok route auth body (ok u, w) h = refl
  after_limit-ok route auth body (err e, w) h = cc

  after_auth-ok :
      (route : Route) (verified : Result Rejection (AuthInfo × Bytes) × World)
      → is_refusal (after_auth env config parse to_json kp route verified).0 ≡ false
      → (auth : AuthInfo) × (body : Bytes) × (verified.0 ≡ ok (auth, body))
        × ((rate_limit_middleware env config.rate_limit (some auth) (path_of route) verified.1).0
            ≡ ok tt)
  after_auth-ok route (ok (auth, body), w) h =
      (auth, body, refl, after_limit-ok route auth body _ h)
  after_auth-ok route (err e, w) h = cc

-- A request to a protected route that gets another response than the refusals of the two layers was
-- accepted by the authentication, with all that this says of its headers, its signature, its nonce
-- and its account, and the rate limit let the request pass for that account on that path.
pub serve-Accepted :
    (env : Env) (config : Config) (parse : Bytes → Option Fields) (to_json : Answer → Bytes)
    (kp : EnclaveKeyPair) (fuel : ℕ) (route : Route) (request : Request) (w : World)
    → is_refusal (serve env config parse to_json kp fuel route request w).0 ≡ false
    → (auth : AuthInfo) × (body : Bytes) × (signed : Signed) × Accepted env config request w
        (verify_signature env config fuel request w).1
        auth
        body
        signed
      × ((rate_limit_middleware env config.rate_limit
            (some auth)
            (path_of route)
            (verify_signature env config fuel request w).1).0
          ≡ ok tt)
unfolding serve
serve-Accepted env config parse to_json kp fuel route request w h =
    let (auth, body, verified, passed) =
      after_auth-ok env config parse to_json kp route (verify_signature env config fuel request w)
        h in
    let (signed, accepted) =
      verify_signature-Accepted env config fuel request w auth body verified in
    (auth, body, signed, accepted, passed)
