-- ===== src/Routes/IsolationRestore.antt =====
-- POST /api/restore (src/relayer/src/routes.rs) leaves another owner's rows as they are.
use nautilus_memwal_relayer.Prelude.{
  ℕ, refl, inl, inr, String, Option, none, some, List, Result, ok, err, map, Bool-cases, str_eq,
  is_empty, flatten, length, unwrap_or,
}
use nautilus_memwal_relayer.Types.{
  AppError, bad_request, unauthorized, internal, blob_not_found, rate_limited, quota_exceeded,
  AuthInfo, Bytes, Config, Embedding,
}
use nautilus_memwal_relayer.Db.Vectors.{VectorEntry}
use nautilus_memwal_relayer.VectorDb.{insert_vector, get_blobs_by_namespace}
use nautilus_memwal_relayer.World.Env.{Env, OnChainBlob}
use nautilus_memwal_relayer.World.Action.{Action, pure, lift, attempt, for_each}
use nautilus_memwal_relayer.World.Calls.{new_uuid, send}
use nautilus_memwal_relayer.World.Preserves.{Preserves-bind, Preserves-for_each}
use nautilus_memwal_relayer.Clients.Walrus.{download_blob, query_blobs_by_owner}
use nautilus_memwal_relayer.Clients.Seal.{seal_decrypt}
use nautilus_memwal_relayer.Clients.Embeddings.{generate_embedding}
use nautilus_memwal_relayer.Routes.Recall.{cleanup_expired_blob, decryption_key}
use nautilus_memwal_relayer.Routes.Restore.{
  RestoreRequest, restore, restore_blobs, restore_listed, restore_missing, download_missing,
  after_download, decrypt_blob, text_of, embed_text, vector_of, insert_restored, index_downloaded,
  all_missing, limited, package_ids, blob_sizes, last_of,
}
use nautilus_memwal_relayer.Routes.Untouched.{
  Apart, Untouched, Leaves, Leaves-new_uuid, new_uuid-IsMade, Leaves-download, Leaves-decrypt,
  Leaves-embedding, Leaves-insert, Leaves-cleanup, Leaves-blobs,
}
use nautilus_memwal_relayer.Routes.IsolationReads.{All-any}

module _ (env : Env) (config : Config) (auth : AuthInfo) (owner : String) (rows : List VectorEntry)
    (apart : Apart env auth owner rows) where
  Leaves-each :
      {A B : Type 0} (f : A → Action AppError B)
      → ((a : A) → Leaves owner rows (f a))
      → (entries : List A) → Leaves owner rows (for_each f entries)
  Leaves-each f h entries =
      Preserves-for_each (Untouched owner rows) (λ _. Unit {0}) f (λ a _. h a) entries
        (All-any entries)

  Leaves-after_download :
      (blob_id : String) (r : Result AppError Bytes)
      → Leaves owner rows (after_download env auth blob_id r)
  Leaves-after_download blob_id (ok bytes) = λ w p. p
  Leaves-after_download blob_id (err (blob_not_found msg)) =
      Preserves-bind (Untouched owner rows)
        (cleanup_expired_blob env {E = AppError} blob_id auth.owner) (λ _. pure none)
        (Leaves-cleanup owner rows env auth apart blob_id) (λ _ _ _ w p. p)
  Leaves-after_download blob_id (err (bad_request msg)) = λ w p. p
  Leaves-after_download blob_id (err (unauthorized msg)) = λ w p. p
  Leaves-after_download blob_id (err (internal msg)) = λ w p. p
  Leaves-after_download blob_id (err (rate_limited msg)) = λ w p. p
  Leaves-after_download blob_id (err (quota_exceeded msg)) = λ w p. p

  Leaves-download_missing :
      (blob_id : String) → Leaves owner rows (download_missing env auth blob_id)
  unfolding download_missing
  Leaves-download_missing blob_id =
      Preserves-bind (Untouched owner rows) (attempt (download_blob env blob_id))
        (after_download env auth blob_id) (Leaves-download owner rows env blob_id)
        (λ r _ _. Leaves-after_download blob_id r)

  Leaves-decrypt_blob :
      (private_key : String) (packages : List (String × String)) (blob : String × Bytes)
      → Leaves owner rows (decrypt_blob env auth config private_key packages blob)
  unfolding decrypt_blob
  Leaves-decrypt_blob private_key packages (blob_id, encrypted) =
      let package_id = unwrap_or (last_of blob_id packages) config.package_id in
      Preserves-bind (Untouched owner rows)
        (attempt (seal_decrypt env config encrypted private_key package_id auth.account_id))
        (λ decrypted. pure {E = AppError} (text_of env auth blob_id decrypted))
        (Leaves-decrypt owner rows env config encrypted private_key package_id auth.account_id)
        (λ _ _ _ w p. p)

  Leaves-embed_text : (text : String × String) → Leaves owner rows (embed_text env auth config text)
  unfolding embed_text
  Leaves-embed_text (blob_id, text) =
      Preserves-bind (Untouched owner rows) (attempt (generate_embedding env config text))
        (λ embedded. pure {E = AppError} (vector_of env auth config blob_id embedded))
        (Leaves-embedding owner rows env config text) (λ _ _ _ w p. p)

  Leaves-insert_restored :
      (namespace : String) (sizes : List (String × ℕ)) (made : String × Embedding)
      → Leaves owner rows (insert_restored env auth config namespace sizes made)
  unfolding insert_restored
  Leaves-insert_restored namespace sizes (blob_id, vector) =
      let e : String → VectorEntry = λ id. record {
        id = id;
        owner = auth.owner;
        namespace = namespace;
        blob_id = blob_id;
        embedding = vector;
        blob_size_bytes = unwrap_or (last_of blob_id sizes) 0;
      } in
      Preserves-bind (Untouched owner rows) (new_uuid env) (λ id. insert_vector env (e id))
        (Leaves-new_uuid owner rows env)
        (λ id w made.
          Leaves-insert owner rows env auth apart (e id) refl
            (new_uuid-IsMade owner rows env w id made))

  Leaves-index :
      (namespace private_key : String) (packages : List (String × String))
      (downloaded : List (String × Bytes))
      → Leaves owner rows
          (index_downloaded env auth config namespace private_key packages downloaded)
  unfolding index_downloaded
  Leaves-index namespace private_key packages downloaded =
      let decrypt = decrypt_blob env auth config private_key packages in
      let embed = embed_text env auth config in
      let insert = insert_restored env auth config namespace (blob_sizes downloaded) in
      Preserves-bind (Untouched owner rows) (for_each decrypt downloaded) _
        (Leaves-each decrypt (Leaves-decrypt_blob private_key packages) downloaded)
        (λ decrypted _ _.
          Preserves-bind (Untouched owner rows) (for_each embed (flatten decrypted)) _
            (Leaves-each embed Leaves-embed_text (flatten decrypted))
            (λ embedded _ _.
              Preserves-bind (Untouched owner rows) (for_each insert (flatten embedded))
                (λ _. pure (length (flatten embedded)))
                (Leaves-each insert (Leaves-insert_restored namespace (blob_sizes downloaded))
                  (flatten embedded))
                (λ _ _ _ w p. p)))

  Leaves-missing :
      (namespace private_key : String) (packages : List (String × String)) (missing : List String)
      → Leaves owner rows (restore_missing env auth config namespace private_key packages missing)
  unfolding restore_missing
  Leaves-missing namespace private_key packages missing =
      let download = download_missing env auth in
      Preserves-bind (Untouched owner rows) (for_each download missing) _
        (Leaves-each download Leaves-download_missing missing)
        (λ downloads _ _ w p. elim (Bool-cases (is_empty (flatten downloads))) [
          | inl nothing ↦ rw nothing p
          | inr something ↦
              rw something (Leaves-index namespace private_key packages (flatten downloads) w p)
        ])

  Leaves-listed :
      (body : RestoreRequest) (private_key : String) (packages : List (String × String)) (total : ℕ)
      (missing : List String)
      → Leaves owner rows (restore_listed env auth config body private_key packages total missing)
  unfolding restore_listed
  Leaves-listed body private_key packages total missing w p = elim (Bool-cases (is_empty missing)) [
    | inl nothing ↦ rw nothing p
    | inr something ↦ rw something (
        Preserves-bind (Untouched owner rows)
          (restore_missing env auth config body.namespace private_key packages missing) _
          (Leaves-missing body.namespace private_key packages missing) (λ _ _ _ v q. q) w p)
  ]

  Leaves-restore_blobs :
      (body : RestoreRequest) (private_key : String) (blobs : List OnChainBlob)
      → Leaves owner rows (restore_blobs env auth config body private_key blobs)
  unfolding restore_blobs
  Leaves-restore_blobs body private_key blobs w p =
      let ids = map (λ (b : OnChainBlob). b.blob_id) blobs in
      elim (Bool-cases (is_empty ids)) [
        | inl nothing ↦ rw nothing p
        | inr something ↦ rw something (
            Preserves-bind (Untouched owner rows)
              (get_blobs_by_namespace env auth.owner body.namespace) _
              (Leaves-blobs owner rows env auth.owner body.namespace)
              (λ existing _ _.
                Leaves-listed body private_key (package_ids blobs) (length ids)
                  (limited body.limit (all_missing existing ids)))
              w p)
      ]

  Leaves-query :
      (namespace package_id : Option String)
      → Leaves owner rows (query_blobs_by_owner env config auth.owner namespace package_id)
  unfolding query_blobs_by_owner send
  Leaves-query namespace package_id w p = p

  pub Leaves-restore : (body : RestoreRequest) → Leaves owner rows (restore env auth config body)
  unfolding restore
  Leaves-restore body w p = elim (Bool-cases (str_eq body.namespace "")) [
    | inl blank ↦ rw blank p
    | inr given ↦ rw given (
        Preserves-bind (Untouched owner rows)
          (lift (
            decryption_key auth config
              "Delegate key or SERVER_SUI_PRIVATE_KEY required for restore"))
          _ (λ v q. q)
          (λ key _ _.
            Preserves-bind (Untouched owner rows)
              (query_blobs_by_owner env config auth.owner (some body.namespace)
                (some config.package_id))
              (restore_blobs env auth config body key)
              (Leaves-query (some body.namespace) (some config.package_id))
              (λ blobs _ _. Leaves-restore_blobs body key blobs))
          w p)
  ]
