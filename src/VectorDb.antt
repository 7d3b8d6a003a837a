-- ===== src/VectorDb.antt =====
-- `VectorDb` of src/relayer/src/db.rs: its methods, as actions over the statements of `Db`.
use nautilus_memwal_relayer.Prelude.{
  ℕ, String, Option, none, some, List, [], ◌∷◌, str_eq, if◌then◌else◌, Result, ok, err, ltb, length,
  ◌-◌, ◌^◌, min,
}
use nautilus_memwal_relayer.Types.{AppError, Embedding, SearchHit}
use nautilus_memwal_relayer.Db.{Database}
use nautilus_memwal_relayer.Db.Vectors.{
  VectorEntry, upsert, search, blobs_of, delete_blob, delete_scope, storage_used,
}
use nautilus_memwal_relayer.Db.Keys.{cached_account, cache_key, delete_key, evict_expired}
use nautilus_memwal_relayer.Db.Jobs.{
  insert_row, update_row, set_done, set_failed, fail_stale, is_stale,
}
use nautilus_memwal_relayer.Prelude.{retain}
use nautilus_memwal_relayer.World.Env.{Env}
use nautilus_memwal_relayer.World.Action.{Action, ◌>>=◌, ◌>>◌, pure}
use nautilus_memwal_relayer.World.Calls.{query}

-- Statements as the bodies of a query.
abbrev pub run : {A : Type 0} → A → Database → Result String A × Database
run a db = (ok a, db)

-- `SELECT account_id FROM accounts WHERE owner = $1`
abbrev pub account_of : String → List (String × String) → Option String
account_of owner [] = none
account_of owner ((account_id, o) ∷ rest) =
    if str_eq o owner then some account_id else account_of owner rest

module _ (env : Env) where
  unfoldable pub insert_vector : VectorEntry → Action AppError Unit
  insert_vector e =
      query env "Failed to insert vector: "
        (λ now db. run tt (record db { vectors = upsert e db.vectors }))

  -- `limit as i64` is negative from 2 ^ 63 on.
  unfoldable pub search_similar : Embedding → String → String → ℕ → Action AppError (List SearchHit)
  search_similar query_vector owner namespace limit w =
      query env "Failed to search vectors: "
        (λ now db.
          if ltb limit (2 ^ 63)
          then run
              (search env.distance (env.reaches w.calls query_vector) query_vector owner namespace
                limit db.vectors)
              db
          else (err "LIMIT must not be negative", db))
        w

  unfoldable pub get_blobs_by_namespace : String → String → Action AppError (List String)
  get_blobs_by_namespace owner namespace =
      query env "Failed to get blobs by namespace: "
        (λ now db. run (blobs_of owner namespace db.vectors) db)

  -- The rows that a deletion took away.
  abbrev rows_affected : {A : Type 0} → List A → List A → ℕ
  rows_affected before after = length before - length after

  unfoldable pub delete_by_namespace : String → String → Action AppError ℕ
  delete_by_namespace owner namespace = query env "Failed to delete by namespace: " (λ now db.
      let rest = delete_scope owner namespace db.vectors in
      run (rows_affected db.vectors rest) (record db { vectors = rest }))

  unfoldable pub delete_by_blob_id : String → String → Action AppError ℕ
  delete_by_blob_id blob_id owner = query env "Failed to delete vector by blob_id: " (λ now db.
      let rest = delete_blob blob_id owner db.vectors in
      run (rows_affected db.vectors rest) (record db { vectors = rest }))

  unfoldable pub get_cached_account : String → Action AppError (Option (String × String))
  get_cached_account public_key =
      query env "Failed to query cache: " (λ now db. run (cached_account now public_key db.keys) db)

  unfoldable pub cache_delegate_key : String → String → String → Action AppError Unit
  cache_delegate_key public_key account_id owner =
      query env "Failed to cache delegate key: "
        (λ now db. run tt (record db { keys = cache_key now public_key account_id owner db.keys }))

  unfoldable pub delete_cached_key : String → Action AppError ℕ
  delete_cached_key public_key = query env "Failed to delete stale cached key: " (λ now db.
      let rest = delete_key public_key db.keys in
      run (rows_affected db.keys rest) (record db { keys = rest }))

  unfoldable pub evict_expired_delegate_keys : Action AppError ℕ
  evict_expired_delegate_keys = query env "Failed to evict expired delegate keys: " (λ now db.
      let rest = evict_expired now db.keys in
      run (rows_affected db.keys rest) (record db { keys = rest }))

  unfoldable pub insert_remember_job : String → String → String → Action AppError Unit
  insert_remember_job id owner namespace =
      query env "Failed to insert remember job: "
        (λ now db. run tt (record db { jobs = insert_row now id owner namespace db.jobs }))

  unfoldable pub complete_remember_job : String → String → Action AppError Unit
  complete_remember_job id blob_id =
      query env "Failed to complete remember job: "
        (λ now db. run tt (record db { jobs = update_row id (set_done blob_id now) db.jobs }))

  unfoldable pub fail_remember_job : String → String → Action AppError Unit
  fail_remember_job id msg =
      query env "Failed to fail remember job: "
        (λ now db. run tt (record db { jobs = update_row id (set_failed msg now) db.jobs }))

  unfoldable pub fail_stale_remember_jobs : ℕ → Action AppError ℕ
  fail_stale_remember_jobs stale_after =
      let stale_after_secs = min stale_after (2 ^ 63 - 1) in
      query env "Failed to fail stale remember jobs: " (λ now db.
        run (length (retain (is_stale now stale_after_secs) db.jobs))
          (record db { jobs = fail_stale now stale_after_secs db.jobs }))

  unfoldable pub get_storage_used : String → Action AppError ℕ
  get_storage_used owner =
      query env "Failed to get storage used: " (λ now db. run (storage_used owner db.vectors) db)

  -- A transaction of four statements; that the lock excludes others is not modelled.
  unfoldable pub get_storage_used_with_lock : String → ℕ → Action AppError ℕ
  get_storage_used_with_lock owner lock_key = do
    query env {A = Unit} "Failed to begin tx: " (λ now db. run tt db)
    query env {A = Unit} "Failed to acquire advisory lock: " (λ now db. run tt db)
    used ←
        query env "Failed to get storage used: " (λ now db. run (storage_used owner db.vectors) db)
    query env {A = Unit} "Failed to commit tx: " (λ now db. run tt db)
    pure used

  unfoldable pub find_account_by_owner : String → Action AppError (Option String)
  find_account_by_owner owner =
      query env "Failed to query accounts: " (λ now db. run (account_of owner db.accounts) db)
