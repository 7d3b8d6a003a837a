-- ===== src/Jobs/Settled.antt =====
-- How a wallet job (src/relayer/src/jobs.rs) leaves the row of its memory in `remember_jobs`.
use nautilus_memwal_relayer.Prelude.{ℕ, ◌≡◌, refl, ap, String, Option, some, length, arith}
use nautilus_memwal_relayer.Types.{error_text, Bytes, Config, Embedding}
use nautilus_memwal_relayer.Db.Vectors.{VectorEntry}
use nautilus_memwal_relayer.Db.Jobs.{set_running, set_uploaded, set_done}
use nautilus_memwal_relayer.VectorDb.{insert_vector}
use nautilus_memwal_relayer.World.State.{World}
use nautilus_memwal_relayer.World.Env.{Env, answered}
use nautilus_memwal_relayer.World.Action.{◌>>=◌, ◌>>◌, attempt, mapping_err}
use nautilus_memwal_relayer.World.Calls.{query, redis_call}
use nautilus_memwal_relayer.Clients.Walrus.{UploadResult, upload_blob}
use nautilus_memwal_relayer.Clients.Rules.{upload_lem}
use nautilus_memwal_relayer.Jobs.Errors.{WalletJobError, into_apalis_error}
use nautilus_memwal_relayer.Jobs.Types.{WalletJob, upload_and_transfer}
use nautilus_memwal_relayer.Jobs.Wallet.{
  mark_job, or_mark_failed, index_upload, warm_blob_cache_after_upload, after_upload,
  upload_and_index, execute_upload_and_transfer, execute_wallet_job,
}
use nautilus_memwal_relayer.Jobs.RowSteps.{
  HasRow, Ended, Ends, GoesOn, Ends-bind, Underway-kept, Ended-map_err, GoesOn-mark_job,
  Ends-mark_done, GoesOn-or_mark_failed,
}

module _ (id : String) where
  Keeps-insert :
      (env : Env) (e : VectorEntry) (w : World) → (insert_vector env e w).1.db.jobs ≡ w.db.jobs
  unfolding insert_vector query
  Keeps-insert env e w = ground arith

  module _ (env : Env) (up : (n : ℕ) → env.database n ≡ answered) where
    Ends-index_upload : (e : VectorEntry) → Ends id (index_upload env (some id) e)
    unfolding index_upload
    Ends-index_upload e =
        let insert = attempt {F = WalletJobError} (mapping_err error_text (insert_vector env e)) in
        let check = or_mark_failed env {A = Unit {0}} (some id) "insert_vector failed: " in
        let mark = mark_job env {E = WalletJobError} id (set_done e.blob_id) in
        Ends-bind id insert (λ inserted. check inserted >> mark)
          (λ w p. Underway-kept id w (insert w) _ refl (Keeps-insert env e w) p)
          (λ inserted.
            Ends-bind id (check inserted) (λ _. mark)
              (GoesOn-or_mark_failed id env up Unit "insert_vector failed: " inserted)
              (λ _. Ends-mark_done id env up WalletJobError e.blob_id))

    module _ (config : Config) where
      GoesOn-warm :
          (blob_id : String) (ciphertext : Bytes)
          → GoesOn id
              (warm_blob_cache_after_upload env config {E = WalletJobError} blob_id ciphertext)
      unfolding warm_blob_cache_after_upload redis_call
      GoesOn-warm blob_id ciphertext w p =
          Underway-kept id w
            (warm_blob_cache_after_upload env config {E = WalletJobError} blob_id ciphertext w) tt
            (ground arith) (ground arith) p

      Ends-after_upload :
          (encrypted : Bytes) (vector : Embedding) (owner namespace : String)
          (upload : UploadResult)
          → Ends id (after_upload env config encrypted vector owner namespace (some id) upload)
      unfolding after_upload
      Ends-after_upload encrypted vector owner namespace upload =
          let e : VectorEntry = record {
            id = id;
            owner = owner;
            namespace = namespace;
            blob_id = upload.blob_id;
            embedding = vector;
            blob_size_bytes = length encrypted;
          } in
          let index = index_upload env (some id) e in
          let mark = mark_job env {E = WalletJobError} id (set_uploaded upload.blob_id) in
          let warm =
            warm_blob_cache_after_upload env config {E = WalletJobError} upload.blob_id encrypted in
          Ends-bind id warm (λ _. mark >> index) (GoesOn-warm upload.blob_id encrypted)
            (λ _.
              Ends-bind id mark (λ _. index)
                (GoesOn-mark_job id env up WalletJobError (set_uploaded upload.blob_id)
                  (λ now r. refl))
                (λ _. Ends-index_upload e))

      Ends-upload_and_index :
          (wallet_index : ℕ) (encrypted : Bytes) (vector : Embedding)
          (owner namespace package_id : String) (agent : Option String) (epochs : ℕ)
          → Ends id (
              upload_and_index env config wallet_index encrypted vector owner namespace package_id
                agent
                (some id)
                epochs)
      unfolding upload_and_index
      Ends-upload_and_index wallet_index encrypted vector owner namespace package_id agent epochs =
          let call =
            upload_blob env config encrypted epochs owner wallet_index namespace package_id agent in
          let upload = attempt {F = WalletJobError} (mapping_err error_text call) in
          let check = or_mark_failed env {A = UploadResult} (some id) "walrus upload failed: " in
          let rest = after_upload env config encrypted vector owner namespace (some id) in
          Ends-bind id upload (λ uploaded. check uploaded >>= rest)
            (λ w p.
              Underway-kept id w (upload w) _ refl
                (ap (λ (v : World). v.db.jobs)
                  (upload_lem env config encrypted epochs owner wallet_index namespace package_id
                    agent w))
                p)
            (λ uploaded.
              Ends-bind id (check uploaded) rest
                (GoesOn-or_mark_failed id env up UploadResult "walrus upload failed: " uploaded)
                (Ends-after_upload encrypted vector owner namespace))

      Ends-upload_and_transfer :
          (wallet_index : ℕ) (encrypted_b64 : String) (vector : Embedding)
          (owner namespace package_id : String) (agent : Option String) (epochs : ℕ)
          → Ends id (
              execute_upload_and_transfer env config wallet_index encrypted_b64 vector owner
                namespace package_id agent
                (some id)
                epochs)
      unfolding execute_upload_and_transfer
      Ends-upload_and_transfer wallet_index encrypted_b64 vector owner namespace package_id agent
            epochs =
          let decode =
            or_mark_failed env (some id) "base64 decode failed: "
              (env.base64_decode encrypted_b64) in
          let rest = λ (encrypted : Bytes).
            upload_and_index env config wallet_index encrypted vector owner namespace package_id
              agent (some id) epochs in
          Ends-bind id (mark_job env {E = WalletJobError} id set_running) (λ _. decode >>= rest)
            (GoesOn-mark_job id env up WalletJobError set_running (λ now r. refl))
            (λ _.
              Ends-bind id decode rest
                (GoesOn-or_mark_failed id env up Bytes "base64 decode failed: "
                  (env.base64_decode encrypted_b64))
                (λ (encrypted : Bytes).
                  Ends-upload_and_index wallet_index encrypted vector owner namespace package_id
                    agent epochs))

      -- While the database answers, an upload job whose row exists ends with its row done if it
      -- succeeds, and with its row failed if it fails, at whatever step.
      pub execute_wallet_job-Ended :
          (job : WalletJob) (encrypted_b64 : String) (vector : Embedding)
          (owner namespace package_id : String) (agent : Option String) (epochs : ℕ) (w : World)
          → job.operation
            ≡ upload_and_transfer encrypted_b64 vector owner namespace package_id agent
                (some id)
                epochs
          → HasRow id w
          → Ended id (execute_wallet_job env config job w)
      unfolding execute_wallet_job
      execute_wallet_job-Ended job encrypted_b64 vector owner namespace package_id agent epochs w
            same p =
          rw same (
            Ended-map_err id into_apalis_error
              (execute_upload_and_transfer env config job.wallet_index encrypted_b64 vector owner
                namespace package_id agent (some id) epochs w)
              (Ends-upload_and_transfer job.wallet_index encrypted_b64 vector owner namespace
                package_id agent epochs w p))
