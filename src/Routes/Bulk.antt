-- ===== src/Routes/Bulk.antt =====
-- POST /api/remember/bulk of src/relayer/src/routes.rs. The items, of which the source runs up to
-- five at once, run here one after another.
use nautilus_memwal_relayer.Prelude.{
  ℕ, suc, String, ◌<>◌, none, List, [], ◌∷◌, Result, ok, err, length, is_empty, len, show, str_eq,
  ltb, if◌then◌else◌,
}
use nautilus_memwal_relayer.Types.{AppError, bad_request, AuthInfo, Config}
use nautilus_memwal_relayer.VectorDb.{insert_remember_job, insert_vector, complete_remember_job}
use nautilus_memwal_relayer.World.Env.{Env}
use nautilus_memwal_relayer.World.Action.{Action, ◌>>=◌, ◌>>◌, pure, fail, lift, attempt, for_each}
use nautilus_memwal_relayer.World.Calls.{new_uuid}
use nautilus_memwal_relayer.Clients.Walrus.{upload_blob}
use nautilus_memwal_relayer.Routes.Prepare.{require_key, embed_and_encrypt}
use nautilus_memwal_relayer.Routes.Remember.{max_remember_text_bytes}

abbrev pub max_bulk_items : ℕ
max_bulk_items = 20

pub record RememberBulkItem : Type 0 where
  pub text : String
  pub namespace : String

pub record RememberBulkResponse : Type 0 where
  pub job_ids : List String
  pub total : ℕ
  pub status : String

-- The loop that checks the texts, from that index on
unfoldable pub check_items : ℕ → List RememberBulkItem → Result {0, 0} AppError Unit
check_items i [] = ok tt
check_items i (item ∷ items) =
    let rest = check_items (suc i) items in
    if str_eq item.text ""
    then err (bad_request ("items[" <> show i <> "].text cannot be empty"))
    else if ltb max_remember_text_bytes (len item.text)
    then err (bad_request ("items[" <> show i <> "].text exceeds 65536 bytes"))
    else rest

abbrev pub zip : List String → List RememberBulkItem → List (String × RememberBulkItem)
zip [] items = []
zip (id ∷ ids) [] = []
zip (id ∷ ids) (item ∷ items) = (id, item) ∷ zip ids items

module _ (env : Env) where
  -- One id for every item
  unfoldable pub new_ids : List RememberBulkItem → Action AppError (List String)
  unfolding for_each
  new_ids = for_each (λ item. new_uuid env)

  module _ (config : Config) where
    unfoldable pub remember_item : String → String × RememberBulkItem → Action AppError Unit
    remember_item owner (id, item) = do
      key_index ← require_key "No Sui keys configured"
      (vector, encrypted) ← embed_and_encrypt env config item.text owner
      upload ←
          upload_blob env config encrypted 50 owner key_index item.namespace config.package_id none
      insert_vector env (record {
        id = id;
        owner = owner;
        namespace = item.namespace;
        blob_id = upload.blob_id;
        embedding = vector;
        blob_size_bytes = length encrypted;
      })
      complete_remember_job env id upload.blob_id

    unfoldable pub remember_bulk :
        AuthInfo → List RememberBulkItem → Action AppError RememberBulkResponse
    unfolding check_items new_ids remember_item for_each
    remember_bulk auth items =
        if is_empty items
        then fail (bad_request "items cannot be empty")
        else if ltb max_bulk_items (length items)
        then fail (bad_request "items exceeds maximum of 20")
        else do
          lift (check_items 0 items)
          job_ids ← new_ids items
          _ ←
              for_each
                (λ (p : String × RememberBulkItem).
                  insert_remember_job env p.0 auth.owner p.1.namespace)
                (zip job_ids items)
          -- the results are collected and dropped
          _ ←
              for_each (λ p. attempt {E = AppError} {F = AppError} (remember_item auth.owner p))
                (zip job_ids items)
          pure (record { job_ids = job_ids; total = length items; status = "accepted" })
