-- ===== src/Routes/Untouched.antt =====
-- Which actions of a request (src/relayer/src/routes.rs) leave another owner's rows as they are.
use nautilus_memwal_relayer.Prelude.{
  ℕ, ◌≡◌, ap, ◌∙◌, String, false, Option, List, ok, All, str_eq, arith,
}
use nautilus_memwal_relayer.Types.{AppError, AuthInfo, Bytes, Config, Embedding, RateLimitConfig}
use nautilus_memwal_relayer.Db.Vectors.{VectorEntry}
use nautilus_memwal_relayer.Db.Owned.{rows_of, rows_of-upsert, rows_of-delete_blob}
use nautilus_memwal_relayer.VectorDb.{
  insert_vector, search_similar, delete_by_blob_id, get_storage_used, insert_remember_job,
  complete_remember_job, get_blobs_by_namespace,
}
use nautilus_memwal_relayer.World.State.{World}
use nautilus_memwal_relayer.World.Env.{Env}
use nautilus_memwal_relayer.World.Action.{Action}
use nautilus_memwal_relayer.World.Calls.{query, new_uuid}
use nautilus_memwal_relayer.World.Preserves.{Preserves}
use nautilus_memwal_relayer.Clients.Walrus.{download_blob, upload_blob}
use nautilus_memwal_relayer.Clients.Seal.{seal_encrypt, seal_decrypt}
use nautilus_memwal_relayer.Clients.Embeddings.{generate_embedding}
use nautilus_memwal_relayer.Clients.Rules.{
  embedding_lem, encrypt_lem, decrypt_lem, upload_lem, download_lem,
}
use nautilus_memwal_relayer.RateLimit.Quota.{check_storage_quota}
use nautilus_memwal_relayer.Jobs.Remember.{take_key_index}
use nautilus_memwal_relayer.Routes.Prepare.{require_key, embed_and_encrypt}
use nautilus_memwal_relayer.Routes.Recall.{cleanup_expired_blob}

-- The caller is someone else, and no id that will be made is one of the rows'.
pub record Apart (env : Env) (auth : AuthInfo) (owner : String) (rows : List VectorEntry)
    : Type 0 where
  pub caller : str_eq auth.owner owner ≡ false
  pub fresh : (n : ℕ) → All (λ r. str_eq r.id (env.new_uuid n) ≡ false) rows

-- An id that the environment makes
abbrev pub IsMade : Env → String → Type 0
IsMade env id = (n : ℕ) × (id ≡ env.new_uuid n)

module _ (owner : String) (rows : List VectorEntry) where
  -- The owner's rows are these.
  abbrev pub Untouched : World → Type 0
  Untouched w = rows_of owner w.db.vectors ≡ rows

  abbrev pub Leaves : {E A : Type 0} → Action E A → Type 0
  Leaves = Preserves Untouched

  -- It is enough that an action leaves the table.
  pub Leaves-table :
      {E A : Type 0} (m : Action E A) → ((w : World) → (m w).1.db.vectors ≡ w.db.vectors) → Leaves m
  Leaves-table m h w p = ap (rows_of owner) (h w) ∙ p

  module _ (env : Env) (config : Config) where
    pub Leaves-embedding : (text : String) → Leaves (generate_embedding env config text)
    Leaves-embedding text =
        Leaves-table (generate_embedding env config text)
          (λ w. ap (λ (v : World). v.db.vectors) (embedding_lem env config text w))

    pub Leaves-encrypt :
        (data_bytes : Bytes) (who package_id : String)
        → Leaves (seal_encrypt env config data_bytes who package_id)
    Leaves-encrypt data_bytes who package_id =
        Leaves-table (seal_encrypt env config data_bytes who package_id) (λ w.
          ap (λ (v : World). v.db.vectors) (encrypt_lem env config data_bytes who package_id w))

    pub Leaves-decrypt :
        (encrypted : Bytes) (private_key package_id account_id : String)
        → Leaves (seal_decrypt env config encrypted private_key package_id account_id)
    Leaves-decrypt encrypted private_key package_id account_id =
        Leaves-table (seal_decrypt env config encrypted private_key package_id account_id) (λ w.
          ap (λ (v : World). v.db.vectors)
            (decrypt_lem env config encrypted private_key package_id account_id w))

    pub Leaves-upload :
        (data_bytes : Bytes) (epochs : ℕ) (who : String) (key_index : ℕ)
        (namespace package_id : String) (agent : Option String)
        → Leaves (upload_blob env config data_bytes epochs who key_index namespace package_id agent)
    Leaves-upload data_bytes epochs who key_index namespace package_id agent =
        Leaves-table
          (upload_blob env config data_bytes epochs who key_index namespace package_id agent)
          (λ w.
            ap (λ (v : World). v.db.vectors)
              (upload_lem env config data_bytes epochs who key_index namespace package_id agent w))

    pub Leaves-embed_and_encrypt :
        (text who : String) → Leaves (embed_and_encrypt env config text who)
    unfolding embed_and_encrypt
    Leaves-embed_and_encrypt text who = Leaves-table (embed_and_encrypt env config text who) (λ w.
        let embedded = generate_embedding env config text in
        let encrypt = seal_encrypt env config (env.utf8 text) who config.package_id in
        ground (
          arith,
          embedding_lem env config text w,
          encrypt_lem env config (env.utf8 text) who config.package_id (embedded w).1,
        ))

  module _ (env : Env) where
    pub Leaves-download : (blob_id : String) → Leaves (download_blob env blob_id)
    Leaves-download blob_id =
        Leaves-table (download_blob env blob_id)
          (λ w. ap (λ (v : World). v.db.vectors) (download_lem env blob_id w))

    pub Leaves-search :
        (vector : Embedding) (who namespace : String) (limit : ℕ)
        → Leaves (search_similar env vector who namespace limit)
    unfolding search_similar query
    Leaves-search vector who namespace limit w p = ground (arith, p)

    pub Leaves-used : (who : String) → Leaves (get_storage_used env who)
    unfolding get_storage_used query
    Leaves-used who w p = ground (arith, p)

    pub Leaves-blobs : (who namespace : String) → Leaves (get_blobs_by_namespace env who namespace)
    unfolding get_blobs_by_namespace query
    Leaves-blobs who namespace w p = ground (arith, p)

    pub Leaves-insert_job :
        (id who namespace : String) → Leaves (insert_remember_job env id who namespace)
    unfolding insert_remember_job query
    Leaves-insert_job id who namespace w p = ground (arith, p)

    pub Leaves-complete : (id blob_id : String) → Leaves (complete_remember_job env id blob_id)
    unfolding complete_remember_job query
    Leaves-complete id blob_id w p = ground (arith, p)

    pub Leaves-quota :
        (config : RateLimitConfig) (who : String) (more : ℕ)
        → Leaves (check_storage_quota env config who more)
    unfolding check_storage_quota get_storage_used query
    Leaves-quota config who more w p = ground (arith, p)

    pub new_uuid-IsMade :
        {E : Type 0} (w : World) (id : String) → (new_uuid env {E = E} w).0 ≡ ok id → IsMade env id
    unfolding new_uuid
    new_uuid-IsMade w id h = (w.calls, cc)

    pub Leaves-new_uuid : Leaves (new_uuid env {E = AppError})
    unfolding new_uuid
    Leaves-new_uuid w p = p

    module _ (auth : AuthInfo) (apart : Apart env auth owner rows) where
      pub Leaves-insert :
          (e : VectorEntry) → e.owner ≡ auth.owner → IsMade env e.id → Leaves (insert_vector env e)
      unfolding insert_vector query
      Leaves-insert e same (n, new) w p =
          let other : str_eq e.owner owner ≡ false = rw same apart.caller in
          let unused : All (λ r. str_eq r.id e.id ≡ false) (rows_of owner w.db.vectors) =
            rw (new, p) (apart.fresh n) in
          ground (arith, p, rows_of-upsert owner e w.db.vectors other unused)

      pub Leaves-cleanup :
          (blob_id : String) → Leaves (cleanup_expired_blob env {E = AppError} blob_id auth.owner)
      unfolding cleanup_expired_blob delete_by_blob_id query
      Leaves-cleanup blob_id w p =
          ground (arith, p, rows_of-delete_blob owner blob_id auth.owner w.db.vectors apart.caller)

  pub Leaves-require_key : (msg : String) → Leaves (require_key msg)
  unfolding take_key_index
  Leaves-require_key msg w p = ground (arith, p)
