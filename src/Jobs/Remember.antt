-- ===== src/Jobs/Remember.antt =====
-- `execute_remember` and `execute_bulk_remember` of src/relayer/src/jobs.rs.
use nautilus_memwal_relayer.Prelude.{
  ℕ, String, ◌<>◌, Option, some, List, [], ◌∷◌, length, Result, ok, err, ok_or,
}
use nautilus_memwal_relayer.Types.{error_text, Config}
use nautilus_memwal_relayer.Types.KeyPool.{next_index}
use nautilus_memwal_relayer.Db.Jobs.{set_running, set_done, set_failed}
use nautilus_memwal_relayer.VectorDb.{insert_vector}
use nautilus_memwal_relayer.World.Env.{Env}
use nautilus_memwal_relayer.World.Action.{Action, ◌>>=◌, ◌>>◌, pure, fail, attempt, mapping_err}
use nautilus_memwal_relayer.World.Calls.{push_job}
use nautilus_memwal_relayer.Clients.Walrus.{upload_blob}
use nautilus_memwal_relayer.Jobs.Types.{
  upload_and_transfer, WalletJob, RememberJob, BulkRememberItem, BulkRememberJob,
}
use nautilus_memwal_relayer.Jobs.Wallet.{mark_job, warm_blob_cache_after_upload}

-- `state.key_pool.next_index()`
unfoldable pub take_key_index : {E : Type 0} → Action E (Option ℕ)
take_key_index w =
    let (index, pool) = next_index w.key_pool in (ok index, record w { key_pool = pool })

module _ (env : Env) where
  -- The macro `fail!`; the error is `RememberJobError::Internal`'s text.
  unfoldable pub fail_remember : {A : Type 0} → String → String → Action String A
  fail_remember job_id msg = do mark_job env job_id (set_failed msg); fail msg

  abbrev pub or_fail_remember : {A : Type 0} → String → String → Result String A → Action String A
  or_fail_remember job_id prefix (ok a) = pure a
  or_fail_remember job_id prefix (err e) = fail_remember job_id (prefix <> e)

module _ (env : Env) (config : Config) where
  unfoldable pub execute_remember : RememberJob → Action String Unit
  execute_remember job = do
    mark_job env job.job_id set_running
    encrypted ←
        or_fail_remember env job.job_id "base64 decode failed: "
          (env.base64_decode job.encrypted_b64)
    index ← take_key_index
    key_index ← or_fail_remember env job.job_id "" (ok_or index "No Sui keys configured in pool")
    uploaded ← attempt (
        mapping_err error_text (
          upload_blob env config encrypted 50 job.owner key_index job.namespace job.package_id
            job.agent_public_key))
    upload ← or_fail_remember env job.job_id "walrus upload failed: " uploaded
    warm_blob_cache_after_upload env config upload.blob_id encrypted
    inserted ← attempt (
        mapping_err error_text (
          insert_vector env (record {
            id = job.job_id;
            owner = job.owner;
            namespace = job.namespace;
            blob_id = upload.blob_id;
            embedding = job.vector;
            blob_size_bytes = length encrypted;
          })))
    or_fail_remember env job.job_id "insert_vector failed: " inserted
    mark_job env job.job_id (set_done upload.blob_id)

-- The wallet job of one item
abbrev pub item_job : BulkRememberJob → BulkRememberItem → WalletJob
item_job job item = record {
  wallet_index = item.wallet_index;
  operation =
      upload_and_transfer item.encrypted_b64 item.vector job.owner item.namespace job.package_id
        job.agent_public_key (some item.job_id) job.epochs;
}

-- The loop over the items; the first push that fails ends it.
unfoldable pub push_items : Env → BulkRememberJob → List BulkRememberItem → Action String Unit
push_items env job [] = pure tt
push_items env job (item ∷ items) = do
  mapping_err (λ e. "failed to enqueue wallet job for " <> item.job_id <> ": " <> e)
      (push_job env (item_job job item))
  push_items env job items

-- The error is `BulkRememberError::Internal`'s text.
unfoldable pub execute_bulk_remember : Env → BulkRememberJob → Action String Unit
unfolding push_items
execute_bulk_remember env job = push_items env job job.items
