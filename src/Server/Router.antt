-- ===== src/Server/Router.antt =====
-- The routes of src/relayer/src/main.rs: which handler, method and path each has, which of them the
-- authentication and the rate limit guard, and how a response is sent. That a request matches a
-- route is the router's work, which is a parameter: a request comes with its route.
use nautilus_memwal_relayer.Prelude.{
  ℕ, String, ◌<>◌, Bool, true, false, Option, none, some, Result, ok, err,
}
use nautilus_memwal_relayer.Types.{AppError, AuthInfo, Bytes, Config, error_status}
use nautilus_memwal_relayer.World.State.{World}
use nautilus_memwal_relayer.World.Env.{Env}
use nautilus_memwal_relayer.World.Action.{Action, ◌>>=◌, pure}
use nautilus_memwal_relayer.Auth.Verify.{Request, Rejection, verify_signature}
use nautilus_memwal_relayer.RateLimit.Middleware.{TooManyRequests, rate_limit_middleware}
use nautilus_memwal_relayer.Enclave.KeyPair.{EnclaveKeyPair}
use nautilus_memwal_relayer.Enclave.Sign
use nautilus_memwal_relayer.Enclave.Sign.{Intent, SignedResponse, sign_response}
use nautilus_memwal_relayer.Routes.Remember.{
  RememberAccepted, RememberStatus, RememberManualResponse, remember, remember_status,
  remember_manual,
}
use nautilus_memwal_relayer.Routes.Recall.{
  RecallResponse, RecallManualResponse, recall, recall_manual,
}
use nautilus_memwal_relayer.Routes.Bulk.{RememberBulkResponse, remember_bulk}
use nautilus_memwal_relayer.Routes.Analyze.{AnalyzeAcceptedResponse, analyze}
use nautilus_memwal_relayer.Routes.Ask.{AskResponse, ask}
use nautilus_memwal_relayer.Routes.Restore.{RestoreResponse, restore}
use nautilus_memwal_relayer.Server.Requests.{
  Fields, read_remember, read_bulk, read_recall, read_analyze, read_remember_manual,
  read_recall_manual, read_ask, read_restore,
}

-- The protected routes
pub data Route : Type 0 where
  remember_route remember_bulk_route recall_route remember_manual_route recall_manual_route : Route
  analyze_route ask_route restore_route : Route
  remember_status_route : (job_id : String) → Route

-- Their paths, and whether they are read with GET
abbrev pub path_of : Route → String
path_of remember_route = "/api/remember"
path_of remember_bulk_route = "/api/remember/bulk"
path_of recall_route = "/api/recall"
path_of remember_manual_route = "/api/remember/manual"
path_of recall_manual_route = "/api/recall/manual"
path_of analyze_route = "/api/analyze"
path_of ask_route = "/api/ask"
path_of restore_route = "/api/restore"
path_of (remember_status_route job_id) = "/api/remember/" <> job_id

abbrev pub is_get : Route → Bool
is_get (remember_status_route job_id) = true
is_get _ = false

pub data Answer : Type 0 where
  remembered : RememberAccepted → Answer
  bulk_accepted : RememberBulkResponse → Answer
  status : RememberStatus → Answer
  recalled : RecallResponse → Answer
  stored : RememberManualResponse → Answer
  hits : RecallManualResponse → Answer
  analyzed : AnalyzeAcceptedResponse → Answer
  answered : AskResponse → Answer
  restored : RestoreResponse → Answer

pub data Response : Type 0 where
  rejected : Rejection → Response
  limited : TooManyRequests → Response
  -- the body is not the JSON that the handler takes
  unreadable : Response
  failed : (status : ℕ) → AppError → Response
  signed : (status : ℕ) → SignedResponse Answer → Response
  plain : (status : ℕ) → Answer → Response

module _ (env : Env) (config : Config) (parse : Bytes → Option Fields) (to_json : Answer → Bytes)
    (kp : EnclaveKeyPair) where
  -- A handler's response, wrapped by `sign_response`
  unfoldable pub sent_signed :
      {A : Type 0} → ℕ → Intent → (A → Answer) → Action AppError A → Action AppError Response
  sent_signed code intent wrap handler = do
    a ← handler
    response ← sign_response env to_json kp intent (wrap a)
    pure (signed code response)

  unfoldable pub sent_plain :
      {A : Type 0} → ℕ → (A → Answer) → Action AppError A → Action AppError Response
  sent_plain code wrap handler = do a ← handler; pure (plain code (wrap a))

  abbrev pub if_read :
      {A : Type 0} → (A → Action AppError Response) → Option A → Action AppError Response
  if_read handler none = pure unreadable
  if_read handler (some request) = handler request

  -- The extractor `Json`, in front of a handler
  abbrev pub with_body :
      {A : Type 0}
      → (Fields → Option A)
      → (A → Action AppError Response)
      → Option Fields
      → Action AppError Response
  with_body read handler none = pure unreadable
  with_body read handler (some fields) = if_read handler (read fields)

  -- The handler of a route, for a caller and the body that the middleware has read
  unfoldable pub handle : Route → AuthInfo → Bytes → Action AppError Response
  unfolding sent_signed sent_plain
  handle remember_route auth body =
      with_body read_remember (λ r. sent_signed 202 Sign.remember remembered (remember env auth r))
        (parse body)
  handle remember_bulk_route auth body =
      with_body read_bulk (λ r. sent_plain 202 bulk_accepted (remember_bulk env config auth r))
        (parse body)
  handle recall_route auth body =
      with_body read_recall (λ r. sent_signed 200 Sign.recall recalled (recall env config auth r))
        (parse body)
  handle remember_manual_route auth body =
      with_body read_remember_manual
        (λ r. sent_signed 200 Sign.remember_manual stored (remember_manual env config auth r))
        (parse body)
  handle recall_manual_route auth body =
      with_body read_recall_manual
        (λ r. sent_signed 200 Sign.recall_manual hits (recall_manual env auth r)) (parse body)
  handle analyze_route auth body =
      with_body read_analyze
        (λ r. sent_signed 202 Sign.analyze analyzed (analyze env config auth r)) (parse body)
  handle ask_route auth body =
      with_body read_ask (λ r. sent_signed 200 Sign.ask answered (ask env config auth r))
        (parse body)
  handle restore_route auth body =
      with_body read_restore
        (λ r. sent_signed 200 Sign.restore restored (restore env auth config r)) (parse body)
  handle (remember_status_route job_id) auth body =
      sent_plain 200 status (remember_status env auth job_id)

  abbrev pub responded : Result AppError Response × World → Response × World
  responded (ok response, w) = (response, w)
  responded (err e, w) = (failed (error_status e) e, w)

  abbrev pub after_limit :
      Route → AuthInfo → Bytes → Result {0, 0} TooManyRequests Unit × World → Response × World
  after_limit route auth body (ok u, w) = responded (handle route auth body w)
  after_limit route auth body (err e, w) = (limited e, w)

  abbrev pub after_auth : Route → Result Rejection (AuthInfo × Bytes) × World → Response × World
  after_auth route (ok (auth, body), w) =
      after_limit route auth body
        (rate_limit_middleware env config.rate_limit (some auth) (path_of route) w)
  after_auth route (err e, w) = (rejected e, w)

  -- The layers of the protected routes, the outer one first
  unfoldable pub serve : ℕ → Route → Request → World → Response × World
  unfolding handle
  serve fuel route request w = after_auth route (verify_signature env config fuel request w)
