-- ===== src/Jobs/Wallet.antt =====
-- The wallet job's handlers of src/relayer/src/jobs.rs, and the updates of its row in
-- `remember_jobs`.
use nautilus_memwal_relayer.Prelude.{
  ℕ, String, ◌<>◌, ◌||◌, Option, none, some, [], ◌∷◌, length, Result, ok, err, unwrap_or, nat_eq,
  ltb, if◌then◌else◌,
}
use nautilus_memwal_relayer.Types.{error_text, Bytes, Config, Embedding}
use nautilus_memwal_relayer.Db.Vectors.{VectorEntry}
use nautilus_memwal_relayer.Db.Jobs.{
  RememberRow, update_row, set_running, set_uploaded, set_done, set_failed,
}
use nautilus_memwal_relayer.Redis.{set_ex}
use nautilus_memwal_relayer.VectorDb.{run, insert_vector}
use nautilus_memwal_relayer.World.Env.{Env}
use nautilus_memwal_relayer.World.Action.{Action, ◌>>=◌, ◌>>◌, pure, fail, attempt, mapping_err}
use nautilus_memwal_relayer.World.Calls.{query, redis_call, new_uuid}
use nautilus_memwal_relayer.Clients.Walrus.{UploadResult, upload_blob, set_metadata_batch}
use nautilus_memwal_relayer.Jobs.Types.{
  WalletOperation, upload_and_transfer, set_metadata_and_transfer, WalletJob, MetaTransferJob,
}
use nautilus_memwal_relayer.Jobs.Errors.{
  WalletJobError, ApalisError, classify_sidecar_error, into_apalis_error, job_error_text,
}

module _ (env : Env) where
  -- `let _ = sqlx::query("UPDATE remember_jobs SET … WHERE id = …")`: an error is dropped.
  unfoldable pub mark_job : {E : Type 0} → String → (ℕ → RememberRow → RememberRow) → Action E Unit
  mark_job id f = do
    _ ←
        attempt
          (query env "" (λ now db. run tt (record db { jobs = update_row id (f now) db.jobs })))
    pure tt

  -- `if let Some(ref jid) = remember_job_id`
  abbrev pub mark_if :
      {E : Type 0} → Option String → (ℕ → RememberRow → RememberRow) → Action E Unit
  mark_if none f = pure tt
  mark_if (some id) f = mark_job id f

  -- The row is marked failed, and the message classified.
  unfoldable pub mark_failed : {A : Type 0} → Option String → String → Action WalletJobError A
  mark_failed job_id msg = do mark_if job_id (set_failed msg); fail (classify_sidecar_error msg)

  -- `match result { Ok(a) => a, Err(e) => { …mark failed…; return Err(fail(msg)) } }`
  abbrev pub or_mark_failed :
      {A : Type 0} → Option String → String → Result String A → Action WalletJobError A
  or_mark_failed job_id prefix (ok a) = pure a
  or_mark_failed job_id prefix (err e) = mark_failed job_id (prefix <> e)

  -- The row's id, or a fresh one
  abbrev pub vector_id : Option String → Action WalletJobError String
  vector_id none = new_uuid env
  vector_id (some id) = pure id

  -- The insertion and the final status
  unfoldable pub index_upload : Option String → VectorEntry → Action WalletJobError Unit
  index_upload job_id e = do
    inserted ← attempt (mapping_err error_text (insert_vector env e))
    or_mark_failed job_id "insert_vector failed: " inserted
    mark_if job_id (set_done e.blob_id)

abbrev pub blob_cache_key : String → String
blob_cache_key blob_id = "memwal:blob:v1:" <> blob_id

module _ (env : Env) (config : Config) where
  -- `ttl` is in seconds; a failure is only logged.
  unfoldable pub warm_blob_cache_after_upload : {E : Type 0} → String → Bytes → Action E Unit
  warm_blob_cache_after_upload blob_id ciphertext =
      if nat_eq config.blob_cache_ttl 0
        || nat_eq config.blob_cache_max_bytes 0
        || ltb config.blob_cache_max_bytes (length ciphertext)
      then pure tt
      else do
        _ ← attempt (
            redis_call env
              (λ at r. (tt, set_ex at (blob_cache_key blob_id) ciphertext config.blob_cache_ttl r)))
        pure tt

  -- What follows an upload
  unfoldable pub after_upload :
      Bytes
      → Embedding
      → String
      → String
      → Option String
      → UploadResult
      → Action WalletJobError Unit
  unfolding index_upload
  after_upload encrypted vector owner namespace job_id upload = do
    warm_blob_cache_after_upload upload.blob_id encrypted
    mark_if env job_id (set_uploaded upload.blob_id)
    id ← vector_id env job_id
    index_upload env job_id (record {
      id = id;
      owner = owner;
      namespace = namespace;
      blob_id = upload.blob_id;
      embedding = vector;
      blob_size_bytes = length encrypted;
    })

  -- The upload and what follows it, with the decoded bytes
  unfoldable pub upload_and_index :
      ℕ
      → Bytes
      → Embedding
      → String
      → String
      → String
      → Option String
      → Option String
      → ℕ
      → Action WalletJobError Unit
  unfolding after_upload
  upload_and_index wallet_index encrypted vector owner namespace package_id agent job_id epochs = do
    uploaded ← attempt (
        mapping_err error_text
          (upload_blob env config encrypted epochs owner wallet_index namespace package_id agent))
    upload ← or_mark_failed env job_id "walrus upload failed: " uploaded
    after_upload encrypted vector owner namespace job_id upload

  unfoldable pub execute_upload_and_transfer :
      ℕ
      → String
      → Embedding
      → String
      → String
      → String
      → Option String
      → Option String
      → ℕ
      → Action WalletJobError Unit
  unfolding upload_and_index
  execute_upload_and_transfer wallet_index encrypted_b64 vector owner namespace package_id agent
        job_id epochs =
      do
        mark_if env job_id set_running
        encrypted ←
            or_mark_failed env job_id "base64 decode failed: " (env.base64_decode encrypted_b64)
        upload_and_index wallet_index encrypted vector owner namespace package_id agent job_id
            epochs

  unfoldable pub execute_set_metadata_and_transfer :
      ℕ → String → String → String → Option String → Option String → Action WalletJobError Unit
  execute_set_metadata_and_transfer wallet_index blob_object_id owner namespace package_id
        agent_id =
      do
        transferred ←
            mapping_err (λ e. classify_sidecar_error (error_text e))
              (set_metadata_batch env config wallet_index owner
                (unwrap_or package_id config.package_id) agent_id
                ((blob_object_id, namespace) ∷ []))
        pure tt

  -- The `match` on the operation
  abbrev pub run_operation : ℕ → WalletOperation → Action WalletJobError Unit
  run_operation wallet_index
        (upload_and_transfer encrypted_b64 vector owner namespace package_id agent job_id epochs) =
      execute_upload_and_transfer wallet_index encrypted_b64 vector owner namespace package_id agent
        job_id epochs
  run_operation wallet_index
        (set_metadata_and_transfer blob_object_id owner namespace package_id agent_id) =
      execute_set_metadata_and_transfer wallet_index blob_object_id owner namespace package_id
        agent_id

  unfoldable pub execute_wallet_job : WalletJob → Action ApalisError Unit
  execute_wallet_job job =
      mapping_err into_apalis_error (run_operation job.wallet_index job.operation)

  -- The error is `MetaTransferError::SidecarError`'s text.
  unfoldable pub execute_meta_transfer : MetaTransferJob → Action String Unit
  execute_meta_transfer job =
      mapping_err (λ e. "sidecar call failed: " <> job_error_text e)
        (execute_set_metadata_and_transfer job.key_index job.blob_object_id job.owner job.namespace
          job.package_id job.agent_id)
