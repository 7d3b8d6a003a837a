-- ===== src/Jobs/Stored.antt =====
-- A wallet job that succeeds (src/relayer/src/jobs.rs) has stored its memory.
use nautilus_memwal_relayer.Prelude.{
  ℕ, ◌≡◌, String, Option, none, some, Result, ok, err, length, eq_refl, arith,
}
use nautilus_memwal_relayer.Clients.Walrus.{UploadResult, upload_blob}
use nautilus_memwal_relayer.Jobs.Errors.{WalletJobError}
use nautilus_memwal_relayer.Types.{error_text, Bytes, Config, Embedding}
use nautilus_memwal_relayer.Db.Vectors.{VectorEntry}
use nautilus_memwal_relayer.Db.VectorRules.{entry, entry-upsert}
use nautilus_memwal_relayer.VectorDb.{insert_vector}
use nautilus_memwal_relayer.World.State.{World}
use nautilus_memwal_relayer.World.Env.{Env}
use nautilus_memwal_relayer.World.Action.{◌>>=◌, ◌>>◌, attempt, mapping_err}
use nautilus_memwal_relayer.World.Calls.{query}
use nautilus_memwal_relayer.World.Ensures.{Ensures, Ensures-bind}
use nautilus_memwal_relayer.Db.Jobs.{set_running, set_uploaded}
use nautilus_memwal_relayer.Jobs.Wallet.{
  mark_job, mark_failed, or_mark_failed, index_upload, upload_and_index, after_upload,
  execute_upload_and_transfer, warm_blob_cache_after_upload,
}

module _ (env : Env) where
  index_upload-entry :
      (job_id : Option String) (e : VectorEntry) (w : World)
      → (index_upload env job_id e w).0 ≡ ok tt
      → entry e.id (index_upload env job_id e w).1.db.vectors ≡ some e
  unfolding index_upload insert_vector query mark_job mark_failed
  index_upload-entry none e w h = ground (arith, entry-upsert e.id e w.db.vectors, eq_refl e.id)
  index_upload-entry (some id) e w h =
      ground (arith, entry-upsert e.id e w.db.vectors, eq_refl e.id)

or_mark_failed-eq-ok :
    {A : Type 0} (env : Env) (id prefix : String) (r : Result String A) (w : World) (a : A)
    → (or_mark_failed env (some id) prefix r w).0 ≡ ok a
    → r ≡ ok a
unfolding mark_failed mark_job
or_mark_failed-eq-ok env id prefix (ok b) w a h = cc
or_mark_failed-eq-ok env id prefix (err e) w a h = cc

-- What stays of a memory: under that id, its owner, namespace and vector, the bytes' number, and a
-- blob.
abbrev pub IsStored : Env → String → String → Embedding → String → String → World → Type 0
IsStored env id encrypted_b64 vector owner namespace w =
    (encrypted : Bytes) × (blob_id : String) × (env.base64_decode encrypted_b64 ≡ ok encrypted)
    × (entry id w.db.vectors
        ≡ some (record {
          id = id;
          owner = owner;
          namespace = namespace;
          blob_id = blob_id;
          embedding = vector;
          blob_size_bytes = length encrypted;
        }))

module _ (env : Env) (config : Config) (wallet_index epochs : ℕ) (encrypted_b64 : String)
    (vector : Embedding) (owner namespace package_id id : String) (agent : Option String) where
  abbrev Stored : Unit {0} → World → Type 0
  Stored u = IsStored env id encrypted_b64 vector owner namespace

  after_upload-IsStored :
      (encrypted : Bytes) (upload : UploadResult)
      → env.base64_decode encrypted_b64 ≡ ok encrypted
      → Ensures Stored (after_upload env config encrypted vector owner namespace (some id) upload)
  unfolding after_upload
  after_upload-IsStored encrypted upload decoded =
      let e : VectorEntry = record {
        id = id;
        owner = owner;
        namespace = namespace;
        blob_id = upload.blob_id;
        embedding = vector;
        blob_size_bytes = length encrypted;
      } in
      let index = index_upload env (some id) e in
      let mark = mark_job env {E = WalletJobError} id (set_uploaded upload.blob_id) in
      let warm =
        warm_blob_cache_after_upload env config {E = WalletJobError} upload.blob_id encrypted in
      Ensures-bind Stored warm (λ _. mark >> index)
        (λ _ _ _.
          Ensures-bind Stored mark (λ _. index)
            (λ _ _ _ w u p.
              (encrypted, upload.blob_id, decoded, index_upload-entry env (some id) e w p)))

  upload_and_index-IsStored :
      (encrypted : Bytes)
      → env.base64_decode encrypted_b64 ≡ ok encrypted
      → Ensures Stored (
          upload_and_index env config wallet_index encrypted vector owner namespace package_id agent
            (some id)
            epochs)
  unfolding upload_and_index
  upload_and_index-IsStored encrypted decoded =
      let upload = attempt (
        mapping_err error_text (
          upload_blob env config encrypted epochs owner wallet_index namespace package_id agent)) in
      let check = or_mark_failed env {A = UploadResult} (some id) "walrus upload failed: " in
      let rest = after_upload env config encrypted vector owner namespace (some id) in
      Ensures-bind Stored upload (λ uploaded. check uploaded >>= rest)
        (λ uploaded _ _.
          Ensures-bind Stored (check uploaded) rest
            (λ result _ _. after_upload-IsStored encrypted result decoded))

  -- An upload job that succeeds, whatever failed on the way without ending it: the table
  -- `vector_entries` then has, under the job's id, the job's owner, namespace and vector, the size of
  -- the decoded ciphertext, and a blob.
  pub execute_upload_and_transfer-IsStored :
      (w : World)
      → (execute_upload_and_transfer env config wallet_index encrypted_b64 vector owner namespace
          package_id agent
          (some id)
          epochs
          w).0
        ≡ ok tt
      → IsStored env id encrypted_b64 vector owner namespace
          (execute_upload_and_transfer env config wallet_index encrypted_b64 vector owner namespace
            package_id agent
            (some id)
            epochs
            w).1
  unfolding execute_upload_and_transfer
  execute_upload_and_transfer-IsStored w h =
      let decode =
        or_mark_failed env (some id) "base64 decode failed: " (env.base64_decode encrypted_b64) in
      let rest = λ (encrypted : Bytes).
        upload_and_index env config wallet_index encrypted vector owner namespace package_id agent
          (some id) epochs in
      Ensures-bind Stored (mark_job env {E = WalletJobError} id set_running) (λ _. decode >>= rest)
        (λ _ _ _. Ensures-bind Stored decode rest (λ (encrypted : Bytes) v p.
          upload_and_index-IsStored encrypted (
            or_mark_failed-eq-ok env id "base64 decode failed: " (env.base64_decode encrypted_b64) v
              encrypted p)))
        w tt h
