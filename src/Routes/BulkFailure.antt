-- ===== src/Routes/BulkFailure.antt =====
-- What a failing item of POST /api/remember/bulk leaves (src/relayer/src/routes.rs).
use nautilus_memwal_relayer.Prelude.{
  ℕ, ◌≡◌, refl, ap, ◌∙◌, String, none, some, List, Result, ok, err, length, arith,
}
use nautilus_memwal_relayer.Types.{AppError, Bytes, Config, Embedding}
use nautilus_memwal_relayer.Db.Vectors.{VectorEntry}
use nautilus_memwal_relayer.Db.Jobs.{RememberRow, pending, row, fail_stale}
use nautilus_memwal_relayer.Db.JobRules.{row-fail_stale}
use nautilus_memwal_relayer.VectorDb.{insert_vector, complete_remember_job}
use nautilus_memwal_relayer.World.State.{World}
use nautilus_memwal_relayer.World.Env.{Env, answered}
use nautilus_memwal_relayer.World.Action.{Action, ◌>>=◌, lift, pure}
use nautilus_memwal_relayer.World.Calls.{spend, query}
use nautilus_memwal_relayer.World.Keeps.{Keeps, KeepsOnFailure, KeepsOnFailure-bind}
use nautilus_memwal_relayer.Clients.Walrus.{UploadResult, upload_blob}
use nautilus_memwal_relayer.Clients.Seal.{seal_encrypt}
use nautilus_memwal_relayer.Clients.Embeddings.{generate_embedding}
use nautilus_memwal_relayer.Clients.Rules.{embedding_lem, encrypt_lem, upload_lem}
use nautilus_memwal_relayer.Jobs.Remember.{take_key_index}
use nautilus_memwal_relayer.Routes.Prepare.{require_key, embed_and_encrypt}
use nautilus_memwal_relayer.Routes.Bulk.{RememberBulkItem, remember_item}

abbrev pub jobs : World → List RememberRow
jobs w = w.db.jobs

pub Keeps-require_key : (msg : String) → Keeps jobs (require_key msg)
unfolding take_key_index
Keeps-require_key msg w = ground arith

-- Both results taken, with the first one's error first
abbrev both :
    Result AppError Embedding → Result AppError Bytes → Action AppError (Embedding × Bytes)
both vector_result encrypted_result = do
  vector ← lift vector_result
  encrypted ← lift encrypted_result
  pure (vector, encrypted)

both_lem :
    (r : Result AppError Embedding) (s : Result AppError Bytes) (w : World) → (both r s w).1 ≡ w
both_lem (ok v) (ok e) w = refl
both_lem (ok v) (err e) w = refl
both_lem (err e) s w = refl

module _ (env : Env) (config : Config) where
  pub embed_and_encrypt_lem :
      (text owner : String) (w : World)
      → (embed_and_encrypt env config text owner w).1 ≡ spend (spend w)
  unfolding embed_and_encrypt
  embed_and_encrypt_lem text owner w =
      let embed = generate_embedding env config text w in
      let encrypt = seal_encrypt env config (env.utf8 text) owner config.package_id embed.1 in
      both_lem embed.0 encrypt.0 encrypt.1
      ∙ encrypt_lem env config (env.utf8 text) owner config.package_id embed.1
      ∙ ap spend (embedding_lem env config text w)

  pub Keeps-embed_and_encrypt :
      (text owner : String) → Keeps jobs (embed_and_encrypt env config text owner)
  Keeps-embed_and_encrypt text owner w = ap jobs (embed_and_encrypt_lem text owner w)

  Keeps-insert : (e : VectorEntry) → Keeps jobs (insert_vector env e)
  unfolding insert_vector query
  Keeps-insert e w = ground arith

  KeepsOnFailure-complete :
      ((n : ℕ) → env.database n ≡ answered)
      → (id blob_id : String) → KeepsOnFailure jobs (complete_remember_job env id blob_id)
  unfolding complete_remember_job query
  KeepsOnFailure-complete up id blob_id w e p = ground (arith, up w.calls, p)

  KeepsOnFailure-item :
      ((n : ℕ) → env.database n ≡ answered)
      → (owner id : String) (item : RememberBulkItem)
      → KeepsOnFailure jobs (remember_item env config owner (id, item))
  unfolding remember_item
  KeepsOnFailure-item up owner id item =
      KeepsOnFailure-bind jobs (require_key "No Sui keys configured") _
        (Keeps-require_key "No Sui keys configured")
        (λ key_index.
          KeepsOnFailure-bind jobs (embed_and_encrypt env config item.text owner) _
            (Keeps-embed_and_encrypt item.text owner)
            (λ (made : Embedding × Bytes).
              KeepsOnFailure-bind jobs
                (upload_blob env config made.1 50 owner key_index item.namespace config.package_id
                  none)
                _
                (λ w. ap jobs (
                  upload_lem env config made.1 50 owner key_index item.namespace config.package_id
                    none w))
                (λ (upload : UploadResult).
                  let e : VectorEntry = record {
                    id = id;
                    owner = owner;
                    namespace = item.namespace;
                    blob_id = upload.blob_id;
                    embedding = made.0;
                    blob_size_bytes = length made.1;
                  } in
                  KeepsOnFailure-bind jobs (insert_vector env e)
                    (λ _. complete_remember_job env id upload.blob_id) (Keeps-insert e)
                    (λ _. KeepsOnFailure-complete up id upload.blob_id))))

-- A bulk item that fails while the database answers: a pending row of its id stays pending and keeps
-- everything else it says, even through a later sweep of stale rows.
pub remember_item-pending :
    (env : Env) (config : Config) (owner id : String) (item : RememberBulkItem) (w : World)
    (e : AppError) (r : RememberRow) (now stale_after_secs : ℕ)
    → ((n : ℕ) → env.database n ≡ answered)
    → (remember_item env config owner (id, item) w).0 ≡ err e
    → row id w.db.jobs ≡ some r
    → r.status ≡ pending
    → row id
        (fail_stale now stale_after_secs (remember_item env config owner (id, item) w).1.db.jobs)
      ≡ some r
remember_item-pending env config owner id item w e r now stale_after_secs up h here fresh =
    rw (KeepsOnFailure-item env config up owner id item w e h)
      (row-fail_stale id now stale_after_secs w.db.jobs r here fresh)
