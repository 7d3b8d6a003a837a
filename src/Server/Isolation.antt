-- ===== src/Server/Isolation.antt =====
-- What a request to a protected route (src/relayer/src/main.rs) can do to the rows of an owner.
use nautilus_memwal_relayer.Prelude.{
  ℕ, ◌≡◌, refl, ap, ◌∙◌, String, false, Option, some, List, Result, ok, err, All, str_eq,
}
use nautilus_memwal_relayer.Types.{AppError, AuthInfo, Bytes, Config}
use nautilus_memwal_relayer.Db.Vectors.{VectorEntry}
use nautilus_memwal_relayer.Db.Owned.{rows_of}
use nautilus_memwal_relayer.World.State.{World}
use nautilus_memwal_relayer.World.Rules.{Stores}
use nautilus_memwal_relayer.World.Env.{Env}
use nautilus_memwal_relayer.Auth.Verify.{Request, Rejection, verify_signature}
use nautilus_memwal_relayer.RateLimit.Middleware.{TooManyRequests, rate_limit_middleware}
use nautilus_memwal_relayer.Enclave.KeyPair.{EnclaveKeyPair}
use nautilus_memwal_relayer.Routes.Untouched.{Apart, Untouched}
use nautilus_memwal_relayer.Server.Requests.{Fields}
use nautilus_memwal_relayer.Server.Router.{
  Route, path_of, Answer, Response, handle, responded, after_limit, after_auth, serve,
}
use nautilus_memwal_relayer.Server.Guards.{Keeps-verify, Keeps-limit}
use nautilus_memwal_relayer.Server.Handlers.{Leaves-handle}

module _ (env : Env) (config : Config) (parse : Bytes → Option Fields) (to_json : Answer → Bytes)
    (kp : EnclaveKeyPair) (owner : String) (rows : List VectorEntry) where
  module _ (auth : AuthInfo) (apart : Apart env auth owner rows) where
    abbrev after : Route → Bytes → Result {0, 0} TooManyRequests Unit × World → Response × World
    after route body limit = after_limit env config parse to_json kp route auth body limit

    responded-state :
        (made : Result AppError Response × World)
        → (responded env config parse to_json kp made).1 ≡ made.1
    responded-state (ok response, w) = refl
    responded-state (err e, w) = refl

    after_limit-Untouched :
        (route : Route) (body : Bytes) (limit : Result {0, 0} TooManyRequests Unit × World)
        → Untouched owner rows limit.1
        → Untouched owner rows (after route body limit).1
    after_limit-Untouched route body (ok u, w) p =
        ap (λ (v : World). rows_of owner v.db.vectors)
          (responded-state (handle env config parse to_json kp route auth body w))
        ∙ Leaves-handle env config parse to_json kp owner rows auth apart route body w p
    after_limit-Untouched route body (err e, w) p = p

  after_auth-Untouched :
      (route : Route) (verified : Result Rejection (AuthInfo × Bytes) × World)
      → ((auth : AuthInfo) (body : Bytes)
          → verified.0 ≡ ok (auth, body)
          → Apart env auth owner rows)
      → Untouched owner rows verified.1
      → Untouched owner rows (after_auth env config parse to_json kp route verified).1
  after_auth-Untouched route (ok (auth, body), w) apart p =
      let limit = rate_limit_middleware env config.rate_limit (some auth) (path_of route) in
      after_limit-Untouched auth (apart auth body refl) route body (limit w) (
        ap (λ (s : Stores). rows_of owner s.tables.vectors)
          (Keeps-limit env config.rate_limit auth (path_of route) w)
        ∙ p)
  after_auth-Untouched route (err e, w) apart p = p

-- A request to a protected route, however it ends, takes, changes and adds no row of an owner that it
-- was not authenticated as: such an owner's rows in `vector_entries` are the same before and after. The
-- ids that the server makes meanwhile must not be those of the owner's rows.
pub serve-others :
    (env : Env) (config : Config) (parse : Bytes → Option Fields) (to_json : Answer → Bytes)
    (kp : EnclaveKeyPair) (fuel : ℕ) (route : Route) (request : Request) (owner : String)
    (w : World)
    → ((auth : AuthInfo) (body : Bytes)
        → (verify_signature env config fuel request w).0 ≡ ok (auth, body)
        → str_eq auth.owner owner ≡ false)
    → ((n : ℕ) → All (λ r. str_eq r.id (env.new_uuid n) ≡ false) (rows_of owner w.db.vectors))
    → rows_of owner (serve env config parse to_json kp fuel route request w).1.db.vectors
      ≡ rows_of owner w.db.vectors
unfolding serve
serve-others env config parse to_json kp fuel route request owner w other fresh =
    after_auth-Untouched env config parse to_json kp owner (rows_of owner w.db.vectors) route
      (verify_signature env config fuel request w)
      (λ auth body p. record { caller = other auth body p; fresh = fresh })
      (ap (λ (s : Stores). rows_of owner s.tables.vectors) (Keeps-verify env config fuel request w))
