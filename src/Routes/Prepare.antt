-- ===== src/Routes/Prepare.antt =====
-- The preparation of a memory in src/relayer/src/routes.rs: the queue, the failure mark, and the task
-- that `spawn_prepare_remember_job` hands over.
use nautilus_memwal_relayer.Prelude.{
  List, [], ◌∷◌, map, mem_str, if◌then◌else◌, ℕ, String, some, Result, ok, err, length, ok_or,
}
use nautilus_memwal_relayer.Types.{AppError, internal, error_text, Bytes, Embedding, Config}
use nautilus_memwal_relayer.Db.Jobs.{set_failed}
use nautilus_memwal_relayer.VectorDb.{run}
use nautilus_memwal_relayer.World.Env.{Env}
use nautilus_memwal_relayer.World.Action.{Action, ◌>>=◌, ◌>>◌, pure, lift, attempt, mapping_err}
use nautilus_memwal_relayer.World.Calls.{push_job, query}
use nautilus_memwal_relayer.Clients.{internal_at}
use nautilus_memwal_relayer.Clients.Seal.{seal_encrypt}
use nautilus_memwal_relayer.Clients.Embeddings.{generate_embedding}
use nautilus_memwal_relayer.RateLimit.Quota.{check_storage_quota}
use nautilus_memwal_relayer.Jobs.Types.{WalletOperation, upload_and_transfer, PrepareTask}
use nautilus_memwal_relayer.Jobs.Wallet.{mark_job}
use nautilus_memwal_relayer.Jobs.Remember.{take_key_index}

-- `next_index().ok_or_else(…)?`
abbrev pub require_key : String → Action AppError ℕ
require_key msg = do index ← take_key_index; lift (ok_or index (internal msg))

unfoldable pub enqueue_wallet_job : Env → ℕ → WalletOperation → Action AppError ℕ
enqueue_wallet_job env wallet_index operation = do
  mapping_err (internal_at "Failed to enqueue WalletJob: ")
      (push_job env (record { wallet_index = wallet_index; operation = operation }))
  pure wallet_index

unfoldable pub mark_remember_job_failed : {E : Type 0} → Env → String → String → Action E Unit
mark_remember_job_failed env job_id msg = mark_job env job_id (set_failed msg)

-- `UPDATE remember_jobs SET status = 'failed' … WHERE id = ANY($2)`; nothing for no ids
unfoldable pub mark_remember_jobs_failed : {E : Type 0} → Env → List String → String → Action E Unit
mark_remember_jobs_failed env [] msg = pure tt
mark_remember_jobs_failed env (id ∷ ids) msg = do
  _ ← attempt (
      query env "" (λ now db. run tt (record db {
        jobs = map (λ r. if mem_str r.id (id ∷ ids) then set_failed msg now r else r) db.jobs;
      })))
  pure tt

module _ (env : Env) (config : Config) where
  -- `tokio::join!` of the embedding and the encryption, here one after the other: both run whatever
  -- becomes of the other, and the embedding's error comes first.
  unfoldable pub embed_and_encrypt : String → String → Action AppError (Embedding × Bytes)
  embed_and_encrypt text owner = do
    vector_result ← attempt (generate_embedding env config text)
    encrypted_result ← attempt (seal_encrypt env config (env.utf8 text) owner config.package_id)
    vector ← lift vector_result
    encrypted ← lift encrypted_result
    pure (vector, encrypted)

  unfoldable pub prepare : PrepareTask → Action AppError Unit
  unfolding embed_and_encrypt enqueue_wallet_job
  prepare task = do
    (vector, encrypted) ← embed_and_encrypt task.text task.owner
    check_storage_quota env config.rate_limit task.owner (length encrypted)
    wallet_index ← require_key "No Sui keys configured"
    _ ← enqueue_wallet_job env wallet_index (
        upload_and_transfer (env.base64_encode encrypted) vector task.owner task.namespace
          config.package_id task.agent_public_key (some task.job_id) 50)
    pure tt

  abbrev after_prepare : {E : Type 0} → String → Result {0, 0} AppError Unit → Action E Unit
  after_prepare job_id (ok u) = pure tt
  after_prepare job_id (err e) = mark_remember_job_failed env job_id (error_text e)

  -- The spawned future
  unfoldable pub run_prepare_task : {E : Type 0} → PrepareTask → Action E Unit
  unfolding prepare mark_remember_job_failed
  run_prepare_task task = do result ← attempt (prepare task); after_prepare task.job_id result
