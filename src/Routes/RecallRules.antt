-- ===== src/Routes/RecallRules.antt =====
-- What recalling (src/relayer/src/routes.rs) reads and what it may delete.
use nautilus_memwal_relayer.Prelude.{
  ℕ, ◌≡◌, refl, ap, String, none, List, Result, ok, err, inl, inr, arith, Bool-cases, str_eq,
}
use nautilus_memwal_relayer.Types.{
  AppError, bad_request, unauthorized, internal, blob_not_found, rate_limited, quota_exceeded,
  Embedding, AuthInfo, Bytes, Config, SearchHit,
}
use nautilus_memwal_relayer.Db.Vectors.{VectorEntry}
use nautilus_memwal_relayer.Db.VectorRules.{others, others-delete_blob}
use nautilus_memwal_relayer.VectorDb.{search_similar, delete_by_blob_id}
use nautilus_memwal_relayer.World.State.{World}
use nautilus_memwal_relayer.World.Env.{Env}
use nautilus_memwal_relayer.World.Action.{pure, lift, attempt, for_each}
use nautilus_memwal_relayer.World.Calls.{query}
use nautilus_memwal_relayer.World.Keeps.{Keeps, Keeps-bind, Keeps-for_each}
use nautilus_memwal_relayer.Clients.Walrus.{download_blob}
use nautilus_memwal_relayer.Clients.Seal.{seal_decrypt}
use nautilus_memwal_relayer.Clients.Embeddings.{generate_embedding}
use nautilus_memwal_relayer.Clients.Rules.{embedding_lem, decrypt_lem, download_lem}
use nautilus_memwal_relayer.Routes.Recall.{
  RecallRequest, cleanup_expired_blob, after_decrypt, after_read, fetch_memory, recall, recall_with,
  decryption_key, is_permanent,
}

module _ (env : Env) (config : Config) (auth : AuthInfo) where
  abbrev view : World → List VectorEntry
  view w = others auth.owner w.db.vectors

  Keeps-cleanup :
      (blob_id : String) → Keeps view (cleanup_expired_blob env {E = AppError} blob_id auth.owner)
  unfolding cleanup_expired_blob delete_by_blob_id query
  Keeps-cleanup blob_id w = ground (arith, others-delete_blob blob_id auth.owner w.db.vectors)

  Keeps-download : (blob_id : String) → Keeps view (download_blob env blob_id)
  Keeps-download blob_id w = ap view (download_lem env blob_id w)

  Keeps-decrypt :
      (encrypted : Bytes) (private_key package_id account_id : String)
      → Keeps view (seal_decrypt env config encrypted private_key package_id account_id)
  Keeps-decrypt encrypted private_key package_id account_id w =
      ap view (decrypt_lem env config encrypted private_key package_id account_id w)

  Keeps-embedding : (text : String) → Keeps view (generate_embedding env config text)
  Keeps-embedding text w = ap view (embedding_lem env config text w)

  Keeps-search :
      (vector : Embedding) (owner namespace : String) (limit : ℕ)
      → Keeps view (search_similar env vector owner namespace limit)
  unfolding search_similar query
  Keeps-search vector owner namespace limit w = ground arith

  module _ (private_key : String) where
    Keeps-after_decrypt :
        (hit : SearchHit) (r : Result AppError Bytes)
        → Keeps view (after_decrypt env config auth private_key hit r)
    Keeps-after_decrypt hit (ok plaintext) w = ground arith
    Keeps-after_decrypt hit (err e) w = elim (Bool-cases (is_permanent e)) [
      | inl lasting ↦ rw lasting (
          Keeps-bind view (cleanup_expired_blob env hit.blob_id auth.owner) (λ u. pure none)
            (Keeps-cleanup hit.blob_id) (λ u v. refl) w)
      | inr passing ↦ rw passing refl
    ]

    Keeps-after_read :
        (hit : SearchHit) (r : Result AppError Bytes)
        → Keeps view (after_read env config auth private_key hit r)
    Keeps-after_read hit (ok encrypted) =
        Keeps-bind view
          (attempt
            (seal_decrypt env config encrypted private_key config.package_id auth.account_id))
          (after_decrypt env config auth private_key hit)
          (Keeps-decrypt encrypted private_key config.package_id auth.account_id)
          (Keeps-after_decrypt hit)
    Keeps-after_read hit (err (blob_not_found msg)) =
        Keeps-bind view (cleanup_expired_blob env hit.blob_id auth.owner) (λ u. pure none)
          (Keeps-cleanup hit.blob_id) (λ u v. refl)
    Keeps-after_read hit (err (bad_request msg)) = λ w. refl
    Keeps-after_read hit (err (unauthorized msg)) = λ w. refl
    Keeps-after_read hit (err (internal msg)) = λ w. refl
    Keeps-after_read hit (err (rate_limited msg)) = λ w. refl
    Keeps-after_read hit (err (quota_exceeded msg)) = λ w. refl

    Keeps-fetch : (hit : SearchHit) → Keeps view (fetch_memory env config auth private_key hit)
    unfolding fetch_memory
    Keeps-fetch hit =
        Keeps-bind view (attempt (download_blob env hit.blob_id))
          (after_read env config auth private_key hit) (Keeps-download hit.blob_id)
          (Keeps-after_read hit)

  Keeps-recall_with :
      (body : RecallRequest) (private_key : String)
      → Keeps view (recall_with env config auth body private_key)
  unfolding recall_with
  Keeps-recall_with body private_key =
      let fetch = fetch_memory env config auth private_key in
      Keeps-bind view (generate_embedding env config body.query) _ (Keeps-embedding body.query)
        (λ vector.
          Keeps-bind view (search_similar env vector auth.owner body.namespace body.limit) _
            (Keeps-search vector auth.owner body.namespace body.limit)
            (λ hits.
              Keeps-bind view (for_each fetch hits) _
                (Keeps-for_each view fetch (Keeps-fetch private_key) hits) (λ fetched v. refl)))

  -- Recalling, whatever the services answer and however it ends, takes and changes no row of
  -- `vector_entries` that belongs to another owner.
  pub recall-others :
      (body : RecallRequest) (w : World)
      → others auth.owner (recall env config auth body w).1.db.vectors
        ≡ others auth.owner w.db.vectors
  unfolding recall
  recall-others body w = elim (Bool-cases (str_eq body.query "")) [
    | inl blank ↦ rw blank refl
    | inr given ↦ rw given (
        Keeps-bind view (lift (decryption_key auth config _)) (recall_with env config auth body)
          (λ v. refl) (Keeps-recall_with body) w)
  ]
