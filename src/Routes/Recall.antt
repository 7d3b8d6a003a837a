-- ===== src/Routes/Recall.antt =====
-- POST /api/recall and POST /api/recall/manual of src/relayer/src/routes.rs. The downloads, which the
-- source runs at once, run here in the order of the hits.
use nautilus_memwal_relayer.Prelude.{
  ℕ, String, Bool, ◌||◌, Option, none, some, List, Result, ok, err, length, is_empty, flatten,
  ok_or, or_option, str_eq, contains, if◌then◌else◌,
}
use nautilus_memwal_relayer.Types.{
  AppError, bad_request, internal, blob_not_found, error_text, AuthInfo, Bytes, Config, Embedding,
  SearchHit,
}
use nautilus_memwal_relayer.VectorDb.{search_similar, delete_by_blob_id}
use nautilus_memwal_relayer.World.Env.{Env}
use nautilus_memwal_relayer.World.Action.{Action, ◌>>=◌, ◌>>◌, pure, fail, lift, attempt, for_each}
use nautilus_memwal_relayer.Clients.Walrus.{download_blob}
use nautilus_memwal_relayer.Clients.Seal.{seal_decrypt}
use nautilus_memwal_relayer.Clients.Embeddings.{generate_embedding}

pub record RecallRequest : Type 0 where
  pub query : String
  pub limit : ℕ
  pub namespace : String

pub record RecallResult : Type 0 where
  pub blob_id : String
  pub text : String
  pub distance : ℕ

pub record RecallResponse : Type 0 where
  pub results : List RecallResult
  pub total : ℕ

pub record RecallManualRequest : Type 0 where
  pub vector : Embedding
  pub limit : ℕ
  pub namespace : String

pub record RecallManualResponse : Type 0 where
  pub results : List SearchHit
  pub total : ℕ

-- The delegate key of the request, else the server's key
abbrev pub decryption_key : AuthInfo → Config → String → Result AppError String
decryption_key auth config msg =
    ok_or (or_option auth.delegate_key config.sui_private_key) (internal msg)

-- The texts that make a decryption's failure a permanent one
abbrev pub is_permanent : AppError → Bool
is_permanent e =
    contains (error_text e) "Not enough shares" || contains (error_text e) "decrypt failed"

module _ (env : Env) where
  -- Best effort: an error is only logged.
  unfoldable pub cleanup_expired_blob : {E : Type 0} → String → String → Action E Unit
  cleanup_expired_blob blob_id owner = do _ ← attempt (delete_by_blob_id env blob_id owner); pure tt

  module _ (config : Config) (auth : AuthInfo) (private_key : String) where
    abbrev pub after_decrypt :
        SearchHit → Result AppError Bytes → Action AppError (Option RecallResult)
    after_decrypt hit (err e) =
        if is_permanent e
        then cleanup_expired_blob hit.blob_id auth.owner >> pure none
        else pure none
    after_decrypt hit (ok plaintext) = elim (env.from_utf8 plaintext) [
      | ok text ↦
          pure (some (record { blob_id = hit.blob_id; text = text; distance = hit.distance }))
      | err e ↦ pure none
    ]

    abbrev pub after_read :
        SearchHit → Result AppError Bytes → Action AppError (Option RecallResult)
    after_read hit (ok encrypted) = do
      decrypted ←
          attempt (seal_decrypt env config encrypted private_key config.package_id auth.account_id)
      after_decrypt hit decrypted
    after_read hit (err (blob_not_found msg)) =
        cleanup_expired_blob hit.blob_id auth.owner >> pure none
    after_read hit (err e) = pure none

    -- The task of one hit
    unfoldable pub fetch_memory : SearchHit → Action AppError (Option RecallResult)
    unfolding cleanup_expired_blob
    fetch_memory hit = do
      downloaded ← attempt (download_blob env hit.blob_id)
      after_read hit downloaded

  -- Steps 1 to 3, with the key
  unfoldable pub recall_with :
      Config → AuthInfo → RecallRequest → String → Action AppError RecallResponse
  unfolding fetch_memory for_each
  recall_with config auth body private_key = do
    query_vector ← generate_embedding env config body.query
    hits ← search_similar env query_vector auth.owner body.namespace body.limit
    fetched ← for_each (fetch_memory config auth private_key) hits
    pure (record { results = flatten fetched; total = length (flatten fetched) })

  unfoldable pub recall : Config → AuthInfo → RecallRequest → Action AppError RecallResponse
  unfolding recall_with
  recall config auth body =
      if str_eq body.query "" then fail (bad_request "Query cannot be empty") else do
        private_key ← lift (
            decryption_key auth config
              "Delegate key or SERVER_SUI_PRIVATE_KEY required for SEAL decryption")
        recall_with config auth body private_key

  unfoldable pub recall_manual :
      AuthInfo → RecallManualRequest → Action AppError RecallManualResponse
  recall_manual auth body =
      if is_empty body.vector then fail (bad_request "vector cannot be empty") else do
        hits ← search_similar env body.vector auth.owner body.namespace body.limit
        pure (record { results = hits; total = length hits })
