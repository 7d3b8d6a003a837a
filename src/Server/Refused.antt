-- ===== src/Server/Refused.antt =====
-- What a request that one of the layers of src/relayer/src/main.rs refuses leaves behind.
use nautilus_memwal_relayer.Prelude.{
  ℕ, ◌≡◌, refl, ap, ◌∙◌, true, false, Option, none, some, Result, ok, err,
}
use nautilus_memwal_relayer.Types.{AppError, AuthInfo, Bytes, Config}
use nautilus_memwal_relayer.World.State.{World}
use nautilus_memwal_relayer.World.Env.{Env}
use nautilus_memwal_relayer.World.Rules.{stores}
use nautilus_memwal_relayer.World.Ensures.{Ensures, Ensures-bind}
use nautilus_memwal_relayer.World.Action.{Action, ◌>>=◌, pure}
use nautilus_memwal_relayer.Auth.Verify.{Request, Rejection, verify_signature}
use nautilus_memwal_relayer.RateLimit.Middleware.{TooManyRequests, rate_limit_middleware}
use nautilus_memwal_relayer.Enclave.KeyPair.{EnclaveKeyPair}
use nautilus_memwal_relayer.Enclave.Sign
use nautilus_memwal_relayer.Enclave.Sign.{Intent, SignedResponse, sign_response}
use nautilus_memwal_relayer.Routes.Remember.{remember, remember_status, remember_manual}
use nautilus_memwal_relayer.Routes.Bulk.{remember_bulk}
use nautilus_memwal_relayer.Routes.Recall.{recall, recall_manual}
use nautilus_memwal_relayer.Routes.Analyze.{analyze}
use nautilus_memwal_relayer.Routes.Ask.{ask}
use nautilus_memwal_relayer.Routes.Restore.{restore}
use nautilus_memwal_relayer.Server.Requests.{
  Fields, read_remember, read_bulk, read_recall, read_analyze, read_remember_manual,
  read_recall_manual, read_ask, read_restore,
}
use nautilus_memwal_relayer.Server.Router.{
  Route, remember_route, remember_bulk_route, recall_route, remember_manual_route,
  recall_manual_route, analyze_route, ask_route, restore_route, remember_status_route, path_of,
  Answer, remembered, bulk_accepted, status, recalled, stored, hits, analyzed, answered, restored,
  Response, signed, plain, unreadable, sent_signed, sent_plain, if_read, with_body, handle,
  responded, after_limit, after_auth, serve,
}
use nautilus_memwal_relayer.Server.Guards.{Keeps-verify, Keeps-limit}
use nautilus_memwal_relayer.Server.Admitted.{is_refusal}

module _ (env : Env) (config : Config) (parse : Bytes → Option Fields) (to_json : Answer → Bytes)
    (kp : EnclaveKeyPair) where
  -- A handler's own response
  abbrev IsOwn : Response → World → Type 0
  IsOwn response w = is_refusal response ≡ false

  IsOwn-signed :
      {A : Type 0} (code : ℕ) (intent : Intent) (wrap : A → Answer) (handler : Action AppError A)
      → Ensures IsOwn (sent_signed env config parse to_json kp code intent wrap handler)
  unfolding sent_signed
  IsOwn-signed {A} code intent wrap handler =
      let sign : A → Action AppError (SignedResponse Answer) =
        λ a. sign_response env to_json kp intent (wrap a) in
      let send : SignedResponse Answer → Action AppError Response = λ r. pure (signed code r) in
      Ensures-bind IsOwn handler (λ a. sign a >>= send)
        (λ a _ _.
          Ensures-bind IsOwn (sign a) send
            (λ r _ _ w response p. let same : response ≡ signed code r = cc in ap is_refusal same))

  IsOwn-plain :
      {A : Type 0} (code : ℕ) (wrap : A → Answer) (handler : Action AppError A)
      → Ensures IsOwn (sent_plain env config parse to_json kp code wrap handler)
  unfolding sent_plain
  IsOwn-plain {A} code wrap handler =
      let send : A → Action AppError Response = λ a. pure (plain code (wrap a)) in
      Ensures-bind IsOwn handler send
        (λ a _ _ w response p. let same : response ≡ plain code (wrap a) = cc in ap is_refusal same)

  IsOwn-body :
      {A : Type 0} (read : Fields → Option A) (fields : Option Fields)
      (handler : A → Action AppError Response)
      → ((a : A) → Ensures IsOwn (handler a))
      → Ensures IsOwn (with_body env config parse to_json kp read handler fields)
  IsOwn-body read none handler h =
      λ w response p. let same : response ≡ unreadable = cc in ap is_refusal same
  IsOwn-body read (some fields) handler h =
      elim (read fields) as (λ o. Ensures IsOwn (if_read env config parse to_json kp handler o)) [
        | none ↦ λ w response p. let same : response ≡ unreadable = cc in ap is_refusal same
        | some a ↦ h a
      ]

  handle-IsOwn :
      (route : Route) (auth : AuthInfo) (body : Bytes)
      → Ensures IsOwn (handle env config parse to_json kp route auth body)
  unfolding handle
  handle-IsOwn remember_route auth body =
      IsOwn-body read_remember (parse body)
        (λ r.
          sent_signed env config parse to_json kp 202 Sign.remember remembered
            (remember env auth r))
        (λ r. IsOwn-signed 202 Sign.remember remembered (remember env auth r))
  handle-IsOwn remember_bulk_route auth body =
      IsOwn-body read_bulk (parse body)
        (λ r.
          sent_plain env config parse to_json kp 202 bulk_accepted
            (remember_bulk env config auth r))
        (λ r. IsOwn-plain 202 bulk_accepted (remember_bulk env config auth r))
  handle-IsOwn recall_route auth body =
      IsOwn-body read_recall (parse body)
        (λ r.
          sent_signed env config parse to_json kp 200 Sign.recall recalled
            (recall env config auth r))
        (λ r. IsOwn-signed 200 Sign.recall recalled (recall env config auth r))
  handle-IsOwn remember_manual_route auth body =
      IsOwn-body read_remember_manual (parse body)
        (λ r.
          sent_signed env config parse to_json kp 200 Sign.remember_manual stored
            (remember_manual env config auth r))
        (λ r. IsOwn-signed 200 Sign.remember_manual stored (remember_manual env config auth r))
  handle-IsOwn recall_manual_route auth body =
      IsOwn-body read_recall_manual (parse body)
        (λ r.
          sent_signed env config parse to_json kp 200 Sign.recall_manual hits
            (recall_manual env auth r))
        (λ r. IsOwn-signed 200 Sign.recall_manual hits (recall_manual env auth r))
  handle-IsOwn analyze_route auth body =
      IsOwn-body read_analyze (parse body)
        (λ r.
          sent_signed env config parse to_json kp 202 Sign.analyze analyzed
            (analyze env config auth r))
        (λ r. IsOwn-signed 202 Sign.analyze analyzed (analyze env config auth r))
  handle-IsOwn ask_route auth body =
      IsOwn-body read_ask (parse body)
        (λ r. sent_signed env config parse to_json kp 200 Sign.ask answered (ask env config auth r))
        (λ r. IsOwn-signed 200 Sign.ask answered (ask env config auth r))
  handle-IsOwn restore_route auth body =
      IsOwn-body read_restore (parse body)
        (λ r.
          sent_signed env config parse to_json kp 200 Sign.restore restored
            (restore env auth config r))
        (λ r. IsOwn-signed 200 Sign.restore restored (restore env auth config r))
  handle-IsOwn (remember_status_route job_id) auth body =
      IsOwn-plain 200 status (remember_status env auth job_id)

  responded-IsOwn :
      (made : Result AppError Response × World)
      → ((response : Response) → made.0 ≡ ok response → is_refusal response ≡ false)
      → is_refusal (responded env config parse to_json kp made).0 ≡ false
  responded-IsOwn (ok response, w) h = h response refl
  responded-IsOwn (err e, w) h = refl

  after_limit-stores :
      (route : Route) (auth : AuthInfo) (body : Bytes)
      (limit : Result {0, 0} TooManyRequests Unit × World)
      → is_refusal (after_limit env config parse to_json kp route auth body limit).0 ≡ true
      → stores (after_limit env config parse to_json kp route auth body limit).1 ≡ stores limit.1
  after_limit-stores route auth body (ok u, w) h =
      let own =
        responded-IsOwn (handle env config parse to_json kp route auth body w)
          (λ response. handle-IsOwn route auth body w response) in
      let bad : ⊥ = cc in absurd bad
  after_limit-stores route auth body (err e, w) h = refl

  after_auth-stores :
      (route : Route) (verified : Result Rejection (AuthInfo × Bytes) × World)
      → is_refusal (after_auth env config parse to_json kp route verified).0 ≡ true
      → stores (after_auth env config parse to_json kp route verified).1 ≡ stores verified.1
  after_auth-stores route (ok (auth, body), w) h =
      after_limit-stores route auth body
        (rate_limit_middleware env config.rate_limit (some auth) (path_of route) w) h
      ∙ Keeps-limit env config.rate_limit auth (path_of route) w
  after_auth-stores route (err e, w) h = refl

-- A request to a protected route that a layer refuses, as not authenticated or as over a limit,
-- leaves everything as it was but Redis, the cache of delegate keys and the number of calls: the rows
-- of memories, jobs and accounts, the key pool, the job queue and the spawned tasks.
pub serve-refused :
    (env : Env) (config : Config) (parse : Bytes → Option Fields) (to_json : Answer → Bytes)
    (kp : EnclaveKeyPair) (fuel : ℕ) (route : Route) (request : Request) (w : World)
    → is_refusal (serve env config parse to_json kp fuel route request w).0 ≡ true
    → stores (serve env config parse to_json kp fuel route request w).1 ≡ stores w
unfolding serve
serve-refused env config parse to_json kp fuel route request w h =
    after_auth-stores env config parse to_json kp route (verify_signature env config fuel request w)
      h
    ∙ Keeps-verify env config fuel request w
