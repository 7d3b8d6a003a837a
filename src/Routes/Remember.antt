-- ===== src/Routes/Remember.antt =====
-- POST /api/remember, GET /api/remember/:job_id and POST /api/remember/manual of
-- src/relayer/src/routes.rs. The responses are the payloads that `sign_response` wraps.
use nautilus_memwal_relayer.Prelude.{
  ℕ, ◌*◌, String, ◌<>◌, Option, none, some, [], ◌∷◌, ◌++◌, Result, ok, err, length, is_empty,
  is_some, len, str_eq, ltb, if◌then◌else◌,
}
use nautilus_memwal_relayer.Types.{
  AppError, bad_request, blob_not_found, AuthInfo, Config, Embedding,
}
use nautilus_memwal_relayer.Db.{Database}
use nautilus_memwal_relayer.Db.Jobs.{Status, RememberRow, row, new_row}
use nautilus_memwal_relayer.VectorDb.{run, insert_vector}
use nautilus_memwal_relayer.World.Env.{Env}
use nautilus_memwal_relayer.World.Action.{Action, ◌>>=◌, ◌>>◌, pure, fail, lift}
use nautilus_memwal_relayer.World.Calls.{query, new_uuid, spawn}
use nautilus_memwal_relayer.Prelude.{map_err}
use nautilus_memwal_relayer.Clients.Walrus.{upload_blob}
use nautilus_memwal_relayer.RateLimit.Quota.{check_storage_quota}
use nautilus_memwal_relayer.Routes.Prepare.{require_key}

abbrev pub max_remember_text_bytes : ℕ
max_remember_text_bytes = 64 * 1024

-- A plain INSERT: the primary key refuses an id that is there.
unfoldable pub insert_job :
    ℕ → String → String → String → Database → Result {0, 0} String Unit × Database
insert_job now id owner namespace db =
    if is_some (row id db.jobs)
    then (err "duplicate key value violates unique constraint \"remember_jobs_pkey\"", db)
    else (ok tt, record db { jobs = db.jobs ++ new_row now id owner namespace ∷ [] })

pub record RememberRequest : Type 0 where
  pub text : String
  pub namespace : String

pub record RememberAccepted : Type 0 where
  pub job_id : String
  pub status : String

pub record RememberStatus : Type 0 where
  pub job_id : String
  pub status : Status
  pub owner : String
  pub namespace : String
  pub blob_id : Option String
  pub error : Option String

-- The `match` on the row: absent and someone else's are the same error.
abbrev pub answer_status : String → String → Option RememberRow → Result AppError RememberStatus
answer_status owner job_id none = err (blob_not_found ("job " <> job_id <> " not found"))
answer_status owner job_id (some r) =
    if str_eq r.owner owner
    then ok (record {
      job_id = r.id;
      status = r.status;
      owner = owner;
      namespace = r.namespace;
      blob_id = r.blob_id;
      error = r.error_msg;
    })
    else err (blob_not_found ("job " <> job_id <> " not found"))

pub record RememberManualRequest : Type 0 where
  pub encrypted_data : String
  pub vector : Embedding
  pub namespace : String

pub record RememberManualResponse : Type 0 where
  pub id : String
  pub blob_id : String
  pub owner : String
  pub namespace : String

module _ (env : Env) where
  unfoldable pub remember : AuthInfo → RememberRequest → Action AppError RememberAccepted
  unfolding insert_job
  remember auth body =
      if str_eq body.text ""
      then fail (bad_request "Text cannot be empty")
      else if ltb max_remember_text_bytes (len body.text)
      then fail (bad_request "text exceeds maximum of 65536 bytes")
      else do
        id ← new_uuid env
        query env "Failed to create remember job row: "
            (λ now db. insert_job now id auth.owner body.namespace db)
        spawn (record {
          job_id = id;
          text = body.text;
          owner = auth.owner;
          namespace = body.namespace;
          agent_public_key = some auth.public_key;
        })
        pure (record { job_id = id; status = "pending" })

  unfoldable pub remember_status : AuthInfo → String → Action AppError RememberStatus
  remember_status auth job_id = do
    found ← query env "DB error: " (λ now db. run (row job_id db.jobs) db)
    lift (answer_status auth.owner job_id found)

  module _ (config : Config) where
    unfoldable pub remember_manual :
        AuthInfo → RememberManualRequest → Action AppError RememberManualResponse
    remember_manual auth body =
        if str_eq body.encrypted_data ""
        then fail (bad_request "encrypted_data cannot be empty")
        else if is_empty body.vector
        then fail (bad_request "vector cannot be empty")
        else do
          encrypted ← lift (
              map_err (λ e. bad_request ("encrypted_data is not valid base64: " <> e))
                (env.base64_decode body.encrypted_data))
          check_storage_quota env config.rate_limit auth.owner (length encrypted)
          key_index ←
              require_key
                "No Sui keys configured (set SERVER_SUI_PRIVATE_KEYS or SERVER_SUI_PRIVATE_KEY)"
          upload ←
              upload_blob env config encrypted 50 auth.owner key_index body.namespace
                config.package_id (some auth.public_key)
          id ← new_uuid env
          insert_vector env (record {
            id = id;
            owner = auth.owner;
            namespace = body.namespace;
            blob_id = upload.blob_id;
            embedding = body.vector;
            blob_size_bytes = length encrypted;
          })
          pure (record {
            id = id;
            blob_id = upload.blob_id;
            owner = auth.owner;
            namespace = body.namespace;
          })
