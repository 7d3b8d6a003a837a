-- ===== src/Jobs/Types.antt =====
-- The job payloads of src/relayer/src/jobs.rs.
use nautilus_memwal_relayer.Prelude.{ℕ, String, Option, List}
use nautilus_memwal_relayer.Types.{Embedding}

pub data WalletOperation : Type 0 where
  upload_and_transfer :
      (encrypted_b64 : String) (vector : Embedding) (owner namespace package_id : String)
      (agent_public_key remember_job_id : Option String) (epochs : ℕ)
      → WalletOperation
  set_metadata_and_transfer :
      (blob_object_id owner namespace : String) (package_id agent_id : Option String)
      → WalletOperation

pub record WalletJob : Type 0 where
  pub wallet_index : ℕ
  pub operation : WalletOperation

pub record MetaTransferJob : Type 0 where
  pub blob_object_id : String
  pub owner : String
  pub namespace : String
  pub package_id : Option String
  pub agent_id : Option String
  pub key_index : ℕ

pub record RememberJob : Type 0 where
  pub job_id : String
  pub encrypted_b64 : String
  pub vector : Embedding
  pub owner : String
  pub namespace : String
  pub package_id : String
  pub agent_public_key : Option String

pub record BulkRememberItem : Type 0 where
  pub job_id : String
  pub encrypted_b64 : String
  pub vector : Embedding
  pub namespace : String
  pub wallet_index : ℕ

pub record BulkRememberJob : Type 0 where
  pub owner : String
  pub package_id : String
  pub agent_public_key : Option String
  pub items : List BulkRememberItem
  pub epochs : ℕ

-- The arguments of `spawn_prepare_remember_job` (src/relayer/src/routes.rs): a task that has been
-- spawned and has not run yet.
pub record PrepareTask : Type 0 where
  pub job_id : String
  pub text : String
  pub owner : String
  pub namespace : String
  pub agent_public_key : Option String
