-- ===== src/Routes/IsolationManual.antt =====
-- POST /api/remember/manual (src/relayer/src/routes.rs) leaves another owner's rows as they are.
use nautilus_memwal_relayer.Prelude.{
  ℕ, refl, inl, inr, String, some, List, Bool-cases, str_eq, is_empty, length, map_err, ◌<>◌,
}
use nautilus_memwal_relayer.Types.{AppError, bad_request, AuthInfo, Bytes, Config}
use nautilus_memwal_relayer.Db.Vectors.{VectorEntry}
use nautilus_memwal_relayer.VectorDb.{insert_vector}
use nautilus_memwal_relayer.World.Env.{Env}
use nautilus_memwal_relayer.World.Action.{Action, ◌>>=◌, ◌>>◌, pure, lift}
use nautilus_memwal_relayer.World.Calls.{new_uuid}
use nautilus_memwal_relayer.World.Preserves.{Preserves-bind}
use nautilus_memwal_relayer.Clients.Walrus.{upload_blob, UploadResult}
use nautilus_memwal_relayer.RateLimit.Quota.{check_storage_quota}
use nautilus_memwal_relayer.Routes.Prepare.{require_key}
use nautilus_memwal_relayer.Routes.Remember.{
  RememberManualRequest, RememberManualResponse, remember_manual,
}
use nautilus_memwal_relayer.Routes.Untouched.{
  Apart, IsMade, Untouched, Leaves, Leaves-new_uuid, new_uuid-IsMade, Leaves-quota,
  Leaves-require_key, Leaves-upload, Leaves-insert,
}

module _ (env : Env) (config : Config) (auth : AuthInfo) (owner : String) (rows : List VectorEntry)
    (apart : Apart env auth owner rows) where
  pub Leaves-stored :
      (id namespace blob_id : String) (vector : List ℕ) (size : ℕ)
      → IsMade env id
      → Leaves owner rows (
          insert_vector env (record {
            id = id;
            owner = auth.owner;
            namespace = namespace;
            blob_id = blob_id;
            embedding = vector;
            blob_size_bytes = size;
          }))
  Leaves-stored id namespace blob_id vector size new =
      Leaves-insert owner rows env auth apart
        (record {
          id = id;
          owner = auth.owner;
          namespace = namespace;
          blob_id = blob_id;
          embedding = vector;
          blob_size_bytes = size;
        })
        refl new

  abbrev no_keys : String
  no_keys = "No Sui keys configured (set SERVER_SUI_PRIVATE_KEYS or SERVER_SUI_PRIVATE_KEY)"

  abbrev manual_response : RememberManualRequest → UploadResult → String → RememberManualResponse
  manual_response body upload id = record {
    id = id;
    blob_id = upload.blob_id;
    owner = auth.owner;
    namespace = body.namespace;
  }

  abbrev insert_manual :
      RememberManualRequest → Bytes → UploadResult → String → Action AppError RememberManualResponse
  insert_manual body encrypted upload id = do
    insert_vector env (record {
      id = id;
      owner = auth.owner;
      namespace = body.namespace;
      blob_id = upload.blob_id;
      embedding = body.vector;
      blob_size_bytes = length encrypted;
    })
    pure (manual_response body upload id)

  -- From the decoded bytes on
  abbrev store_manual : RememberManualRequest → Bytes → Action AppError RememberManualResponse
  store_manual body encrypted = do
    check_storage_quota env config.rate_limit auth.owner (length encrypted)
    key_index ← require_key no_keys
    upload ←
        upload_blob env config encrypted 50 auth.owner key_index body.namespace config.package_id
          (some auth.public_key)
    id ← new_uuid env
    insert_manual body encrypted upload id

  Leaves-manual :
      (body : RememberManualRequest) (encrypted : Bytes)
      → Leaves owner rows (store_manual body encrypted)
  Leaves-manual body encrypted =
      Preserves-bind (Untouched owner rows)
        (check_storage_quota env config.rate_limit auth.owner (length encrypted)) _
        (Leaves-quota owner rows env config.rate_limit auth.owner (length encrypted))
        (λ _ _ _.
          Preserves-bind (Untouched owner rows) (require_key no_keys) _
            (Leaves-require_key owner rows no_keys)
            (λ key_index _ _.
              Preserves-bind (Untouched owner rows)
                (upload_blob env config encrypted 50 auth.owner key_index body.namespace
                  config.package_id (some auth.public_key))
                _
                (Leaves-upload owner rows env config encrypted 50 auth.owner key_index
                  body.namespace config.package_id (some auth.public_key))
                (λ upload _ _.
                  Preserves-bind (Untouched owner rows) (new_uuid env)
                    (λ id. insert_manual body encrypted upload id) (Leaves-new_uuid owner rows env)
                    (λ id v made.
                      Preserves-bind (Untouched owner rows) (insert_vector env _)
                        (λ _. pure (manual_response body upload id))
                        (Leaves-stored id body.namespace upload.blob_id body.vector
                          (length encrypted) (new_uuid-IsMade owner rows env v id made))
                        (λ _ _ _ x q. q)))))

  pub Leaves-remember_manual :
      (body : RememberManualRequest) → Leaves owner rows (remember_manual env config auth body)
  unfolding remember_manual
  Leaves-remember_manual body w p = elim (Bool-cases (str_eq body.encrypted_data "")) [
    | inl blank ↦ rw blank p
    | inr given ↦ rw given (elim (Bool-cases (is_empty body.vector)) [
      | inl no_vector ↦ rw no_vector p
      | inr vector ↦ rw vector (
          Preserves-bind (Untouched owner rows)
            (lift (
              map_err (λ e. bad_request ("encrypted_data is not valid base64: " <> e))
                (env.base64_decode body.encrypted_data)))
            (store_manual body) (λ v q. q) (λ encrypted _ _. Leaves-manual body encrypted) w p)
    ])
  ]
