-- ===== src/Server/Handlers.antt =====
-- The handlers of the protected routes (src/relayer/src/main.rs) leave the rows of an owner that is not
-- their caller.
use nautilus_memwal_relayer.Prelude.{ℕ, String, Option, none, some, List}
use nautilus_memwal_relayer.Types.{AppError, AuthInfo, Bytes, Config}
use nautilus_memwal_relayer.Db.Vectors.{VectorEntry}
use nautilus_memwal_relayer.World.Env.{Env}
use nautilus_memwal_relayer.World.Action.{Action}
use nautilus_memwal_relayer.World.Calls.{now}
use nautilus_memwal_relayer.World.Preserves.{Preserves-bind}
use nautilus_memwal_relayer.Enclave.KeyPair.{EnclaveKeyPair}
use nautilus_memwal_relayer.Enclave.Sign
use nautilus_memwal_relayer.Enclave.Sign.{Intent, sign_response}
use nautilus_memwal_relayer.Routes.Remember.{remember, remember_status, remember_manual}
use nautilus_memwal_relayer.Routes.Bulk.{remember_bulk}
use nautilus_memwal_relayer.Routes.Recall.{recall, recall_manual}
use nautilus_memwal_relayer.Routes.Analyze.{analyze}
use nautilus_memwal_relayer.Routes.Ask.{ask}
use nautilus_memwal_relayer.Routes.Restore.{restore}
use nautilus_memwal_relayer.Routes.Untouched.{Apart, Untouched, Leaves}
use nautilus_memwal_relayer.Routes.IsolationReads.{Leaves-recall, Leaves-recall_manual, Leaves-ask}
use nautilus_memwal_relayer.Routes.IsolationWrites.{Leaves-remember, Leaves-status, Leaves-analyze}
use nautilus_memwal_relayer.Routes.IsolationBulk.{Leaves-bulk}
use nautilus_memwal_relayer.Routes.IsolationManual.{Leaves-remember_manual}
use nautilus_memwal_relayer.Routes.IsolationRestore.{Leaves-restore}
use nautilus_memwal_relayer.Server.Requests.{
  Fields, read_remember, read_bulk, read_recall, read_analyze, read_remember_manual,
  read_recall_manual, read_ask, read_restore,
}
use nautilus_memwal_relayer.Server.Router.{
  Route, remember_route, remember_bulk_route, recall_route, remember_manual_route,
  recall_manual_route, analyze_route, ask_route, restore_route, remember_status_route, Answer,
  remembered, bulk_accepted, status, recalled, stored, hits, analyzed, answered, restored, Response,
  sent_signed, sent_plain, if_read, with_body, handle,
}

module _ (env : Env) (config : Config) (parse : Bytes → Option Fields) (to_json : Answer → Bytes)
    (kp : EnclaveKeyPair) (owner : String) (rows : List VectorEntry) where
  Leaves-signed :
      {A : Type 0} (code : ℕ) (intent : Intent) (wrap : A → Answer) (handler : Action AppError A)
      → Leaves owner rows handler
      → Leaves owner rows (sent_signed env config parse to_json kp code intent wrap handler)
  unfolding sent_signed sign_response now
  Leaves-signed code intent wrap handler h =
      Preserves-bind (Untouched owner rows) handler _ h (λ a _ _ w p. p)

  Leaves-plain :
      {A : Type 0} (code : ℕ) (wrap : A → Answer) (handler : Action AppError A)
      → Leaves owner rows handler
      → Leaves owner rows (sent_plain env config parse to_json kp code wrap handler)
  unfolding sent_plain
  Leaves-plain code wrap handler h =
      Preserves-bind (Untouched owner rows) handler _ h (λ a _ _ w p. p)

  Leaves-if_read :
      {A : Type 0} (handler : A → Action AppError Response) (read : Option A)
      → ((a : A) → Leaves owner rows (handler a))
      → Leaves owner rows (if_read env config parse to_json kp handler read)
  Leaves-if_read handler none h = λ w p. p
  Leaves-if_read handler (some a) h = h a

  Leaves-with_body :
      {A : Type 0} (read : Fields → Option A) (handler : A → Action AppError Response)
      (fields : Option Fields)
      → ((a : A) → Leaves owner rows (handler a))
      → Leaves owner rows (with_body env config parse to_json kp read handler fields)
  Leaves-with_body read handler none h = λ w p. p
  Leaves-with_body read handler (some fields) h = Leaves-if_read handler (read fields) h

  abbrev plain_of : {A : Type 0} → ℕ → (A → Answer) → Action AppError A → Action AppError Response
  plain_of = sent_plain env config parse to_json kp

  Leaves-body_signed :
      {A B : Type 0} (read : Fields → Option A) (code : ℕ) (intent : Intent) (wrap : B → Answer)
      (handler : A → Action AppError B) (fields : Option Fields)
      → ((a : A) → Leaves owner rows (handler a))
      → Leaves owner rows (
          with_body env config parse to_json kp read
            (λ a. sent_signed env config parse to_json kp code intent wrap (handler a))
            fields)
  Leaves-body_signed read code intent wrap handler fields h =
      Leaves-with_body read
        (λ a. sent_signed env config parse to_json kp code intent wrap (handler a)) fields
        (λ a. Leaves-signed code intent wrap (handler a) (h a))

  module _ (auth : AuthInfo) (apart : Apart env auth owner rows) where
    -- Every handler leaves the rows of an owner that is not its caller.
    pub Leaves-handle :
        (route : Route) (body : Bytes)
        → Leaves owner rows (handle env config parse to_json kp route auth body)
    unfolding handle
    Leaves-handle remember_route body =
        Leaves-body_signed read_remember 202 Sign.remember remembered (remember env auth)
          (parse body) (Leaves-remember env config auth owner rows apart)
    Leaves-handle remember_bulk_route body =
        Leaves-with_body read_bulk
          (λ r. plain_of 202 bulk_accepted (remember_bulk env config auth r)) (parse body)
          (λ r.
            Leaves-plain 202 bulk_accepted (remember_bulk env config auth r)
              (Leaves-bulk env config auth owner rows apart r))
    Leaves-handle recall_route body =
        Leaves-body_signed read_recall 200 Sign.recall recalled (recall env config auth)
          (parse body) (Leaves-recall env config auth owner rows apart)
    Leaves-handle remember_manual_route body =
        Leaves-body_signed read_remember_manual 200 Sign.remember_manual stored
          (remember_manual env config auth) (parse body)
          (Leaves-remember_manual env config auth owner rows apart)
    Leaves-handle recall_manual_route body =
        Leaves-body_signed read_recall_manual 200 Sign.recall_manual hits (recall_manual env auth)
          (parse body) (Leaves-recall_manual env config auth owner rows apart)
    Leaves-handle analyze_route body =
        Leaves-body_signed read_analyze 202 Sign.analyze analyzed (analyze env config auth)
          (parse body) (Leaves-analyze env config auth owner rows apart)
    Leaves-handle ask_route body =
        Leaves-body_signed read_ask 200 Sign.ask answered (ask env config auth) (parse body)
          (Leaves-ask env config auth owner rows apart)
    Leaves-handle restore_route body =
        Leaves-body_signed read_restore 200 Sign.restore restored (restore env auth config)
          (parse body) (Leaves-restore env config auth owner rows apart)
    Leaves-handle (remember_status_route job_id) body =
        Leaves-plain 200 status (remember_status env auth job_id)
          (Leaves-status env config auth owner rows apart job_id)
