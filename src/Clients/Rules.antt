-- ===== src/Clients/Rules.antt =====
-- A call of a client (src/relayer/src/seal.rs, walrus.rs, routes.rs) changes nothing of the state but
-- its number.
use nautilus_memwal_relayer.Prelude.{ℕ, ◌≡◌, refl, String, Option, Result, ok, err}
use nautilus_memwal_relayer.Types.{Bytes, Config}
use nautilus_memwal_relayer.World.State.{World}
use nautilus_memwal_relayer.World.Env.{Env}
use nautilus_memwal_relayer.World.Action.{resume, lift}
use nautilus_memwal_relayer.World.Calls.{spend, send, read_blob}
use nautilus_memwal_relayer.Clients.Seal.{seal_encrypt, seal_decrypt}
use nautilus_memwal_relayer.Clients.Walrus.{upload_blob, download_blob, query_blobs_by_owner}
use nautilus_memwal_relayer.Clients.Embeddings.{generate_embedding}

resume-lift :
    {E A B : Type 0} (r : Result E A) (f : A → Result E B) (w : World)
    → (resume r (λ a. lift (f a)) w).1 ≡ w
resume-lift (ok a) f w = refl
resume-lift (err e) f w = refl

module _ (env : Env) (config : Config) where
  pub embedding_lem :
      (text : String) (w : World) → (generate_embedding env config text w).1 ≡ spend w
  unfolding generate_embedding send
  embedding_lem text w = resume-lift _ _ (spend w)

  pub encrypt_lem :
      (data_bytes : Bytes) (owner package_id : String) (w : World)
      → (seal_encrypt env config data_bytes owner package_id w).1 ≡ spend w
  unfolding seal_encrypt send
  encrypt_lem data_bytes owner package_id w = resume-lift _ _ (spend w)

  pub decrypt_lem :
      (encrypted : Bytes) (private_key package_id account_id : String) (w : World)
      → (seal_decrypt env config encrypted private_key package_id account_id w).1 ≡ spend w
  unfolding seal_decrypt send
  decrypt_lem encrypted private_key package_id account_id w = resume-lift _ _ (spend w)

  pub upload_lem :
      (data_bytes : Bytes) (epochs : ℕ) (owner : String) (key_index : ℕ)
      (namespace package_id : String) (agent : Option String) (w : World)
      → (upload_blob env config data_bytes epochs owner key_index namespace package_id agent w).1
        ≡ spend w
  unfolding upload_blob send
  upload_lem data_bytes epochs owner key_index namespace package_id agent w =
      resume-lift _ _ (spend w)

  pub query_lem :
      (owner : String) (namespace package_id : Option String) (w : World)
      → (query_blobs_by_owner env config owner namespace package_id w).1 ≡ spend w
  unfolding query_blobs_by_owner send
  query_lem owner namespace package_id w = refl

pub download_lem :
    (env : Env) (blob_id : String) (w : World) → (download_blob env blob_id w).1 ≡ spend w
unfolding download_blob read_blob
download_lem env blob_id w = refl
