-- ===== src/Routes/Restore.antt =====
-- POST /api/restore of src/relayer/src/routes.rs. The downloads, decryptions and embeddings, which
-- the source runs several at once, run here in the order of their lists.
use nautilus_memwal_relayer.Prelude.{
  ℕ, ◌-◌, String, Option, none, some, List, [], ◌∷◌, Result, ok, err, map, length, is_empty, retain,
  drop, flatten, mem_str, or_option, unwrap_or, not, str_eq, ltb, if◌then◌else◌,
}
use nautilus_memwal_relayer.Types.{
  AppError, bad_request, blob_not_found, AuthInfo, Bytes, Config, Embedding,
}
use nautilus_memwal_relayer.VectorDb.{get_blobs_by_namespace, insert_vector}
use nautilus_memwal_relayer.World.Env.{Env, OnChainBlob}
use nautilus_memwal_relayer.World.Action.{Action, ◌>>=◌, ◌>>◌, pure, fail, lift, attempt, for_each}
use nautilus_memwal_relayer.World.Calls.{new_uuid}
use nautilus_memwal_relayer.Clients.Walrus.{query_blobs_by_owner, download_blob}
use nautilus_memwal_relayer.Clients.Seal.{seal_decrypt}
use nautilus_memwal_relayer.Clients.Embeddings.{generate_embedding}
use nautilus_memwal_relayer.Routes.Recall.{decryption_key, cleanup_expired_blob}

pub record RestoreRequest : Type 0 where
  pub namespace : String
  pub limit : ℕ

pub record RestoreResponse : Type 0 where
  pub restored : ℕ
  pub skipped : ℕ
  pub total : ℕ
  pub namespace : String
  pub owner : String

-- A `HashMap` collected from pairs: the last one of a key counts.
abbrev pub last_of {ℓ} : {A : Type ℓ} → String → List (String × A) → Option A
last_of key [] = none
last_of key (p ∷ ps) = or_option (last_of key ps) (if str_eq p.0 key then some p.1 else none)

unfoldable pub all_missing : List String → List String → List String
all_missing existing = retain (λ id. not (mem_str id existing))

-- The last `limit` of them
unfoldable pub limited : ℕ → List String → List String
limited limit missing =
    if ltb limit (length missing) then drop (length missing - limit) missing else missing

abbrev pub package_ids : List OnChainBlob → List (String × String)
package_ids blobs =
    map (λ b. (b.blob_id, b.package_id)) (retain (λ b. not (str_eq b.package_id "")) blobs)

abbrev pub blob_sizes : List (String × Bytes) → List (String × ℕ)
blob_sizes = map (λ d. (d.0, length d.1))

module _ (env : Env) (auth : AuthInfo) where
  abbrev pub after_download :
      String → Result AppError Bytes → Action AppError (Option (String × Bytes))
  after_download blob_id (ok data_bytes) = pure (some (blob_id, data_bytes))
  after_download blob_id (err (blob_not_found msg)) =
      cleanup_expired_blob env blob_id auth.owner >> pure none
  after_download blob_id (err e) = pure none

  -- Step 3, for one blob
  unfoldable pub download_missing : String → Action AppError (Option (String × Bytes))
  download_missing blob_id = do
    downloaded ← attempt (download_blob env blob_id)
    after_download blob_id downloaded

  abbrev pub text_of : String → Result AppError Bytes → Option (String × String)
  text_of blob_id (err e) = none
  text_of blob_id (ok plaintext) = elim (env.from_utf8 plaintext) [
    | ok text ↦ some (blob_id, text)
    | err e ↦ none
  ]

  module _ (config : Config) where
    -- Step 4, for one blob
    unfoldable pub decrypt_blob :
        String
        → List (String × String)
        → String × Bytes
        → Action AppError (Option (String × String))
    decrypt_blob private_key packages (blob_id, encrypted) = do
      decrypted ← attempt (
          seal_decrypt env config encrypted private_key
            (unwrap_or (last_of blob_id packages) config.package_id) auth.account_id)
      pure (text_of blob_id decrypted)

    abbrev pub vector_of : String → Result AppError Embedding → Option (String × Embedding)
    vector_of blob_id (ok vector) = some (blob_id, vector)
    vector_of blob_id (err e) = none

    -- Step 5, for one text
    unfoldable pub embed_text : String × String → Action AppError (Option (String × Embedding))
    embed_text (blob_id, text) = do
      embedded ← attempt (generate_embedding env config text)
      pure (vector_of blob_id embedded)

    -- Step 6, for one vector
    unfoldable pub insert_restored :
        String → List (String × ℕ) → String × Embedding → Action AppError Unit
    insert_restored namespace sizes (blob_id, vector) = do
      id ← new_uuid env
      insert_vector env (record {
        id = id;
        owner = auth.owner;
        namespace = namespace;
        blob_id = blob_id;
        embedding = vector;
        blob_size_bytes = unwrap_or (last_of blob_id sizes) 0;
      })

    -- Steps 4 to 6: how many were restored
    unfoldable pub index_downloaded :
        String → String → List (String × String) → List (String × Bytes) → Action AppError ℕ
    unfolding decrypt_blob embed_text insert_restored for_each
    index_downloaded namespace private_key packages downloaded = do
      decrypted ← for_each (decrypt_blob private_key packages) downloaded
      embedded ← for_each embed_text (flatten decrypted)
      _ ← for_each (insert_restored namespace (blob_sizes downloaded)) (flatten embedded)
      pure (length (flatten embedded))

    -- Steps 3 to 6
    unfoldable pub restore_missing :
        String → String → List (String × String) → List String → Action AppError ℕ
    unfolding download_missing index_downloaded for_each
    restore_missing namespace private_key packages missing = do
      downloads ← for_each download_missing missing
      let downloaded = flatten downloads
      if is_empty downloaded
          then pure 0
          else index_downloaded namespace private_key packages downloaded

    abbrev response : String → ℕ → ℕ → ℕ → RestoreResponse
    response namespace restored skipped total = record {
      restored = restored;
      skipped = skipped;
      total = total;
      namespace = namespace;
      owner = auth.owner;
    }

    -- Steps 3 to 6 and the response, for the missing blobs of that total
    unfoldable pub restore_listed :
        RestoreRequest
        → String
        → List (String × String)
        → ℕ
        → List String
        → Action AppError RestoreResponse
    unfolding restore_missing
    restore_listed body private_key packages total missing =
        let skipped = total - length missing in
        if is_empty missing then pure (response body.namespace 0 skipped total) else do
          restored ← restore_missing body.namespace private_key packages missing
          pure (response body.namespace restored skipped total)

    -- Steps 2 to 6, for the blobs found on the chain
    unfoldable pub restore_blobs :
        RestoreRequest → String → List OnChainBlob → Action AppError RestoreResponse
    unfolding restore_listed all_missing limited
    restore_blobs body private_key blobs =
        let ids = map (λ (b : OnChainBlob). b.blob_id) blobs in
        if is_empty ids then pure (response body.namespace 0 0 0) else do
          existing ← get_blobs_by_namespace env auth.owner body.namespace
          restore_listed body private_key (package_ids blobs) (length ids)
              (limited body.limit (all_missing existing ids))

    unfoldable pub restore : RestoreRequest → Action AppError RestoreResponse
    unfolding restore_blobs
    restore body =
        if str_eq body.namespace "" then fail (bad_request "namespace cannot be empty") else do
          private_key ← lift (
              decryption_key auth config
                "Delegate key or SERVER_SUI_PRIVATE_KEY required for restore")
          blobs ←
              query_blobs_by_owner env config auth.owner (some body.namespace)
                (some config.package_id)
          restore_blobs body private_key blobs
