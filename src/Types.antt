-- ===== src/Types.antt =====
-- src/relayer/src/types.rs: errors and their HTTP statuses, the key pool, and the configuration.
pub mod KeyPool
pub mod RoundRobin
pub mod Settings
pub mod KeyList
use nautilus_memwal_relayer.Prelude.{ℕ, String, ◌<>◌, Option, List}
use nautilus_memwal_relayer.Prelude.Int.{ℤ}

abbrev pub Bytes : Type 0
Bytes = List ℕ

-- The bit patterns of the `f32` entries of an embedding: the relayer never computes with them.
abbrev pub Embedding : Type 0
Embedding = List ℕ

pub data AppError : Type 0 where
  bad_request unauthorized internal blob_not_found rate_limited quota_exceeded : String → AppError

-- `impl Display for AppError`
abbrev pub error_text : AppError → String
error_text (bad_request msg) = "Bad Request: " <> msg
error_text (unauthorized msg) = "Unauthorized: " <> msg
error_text (internal msg) = "Internal Error: " <> msg
error_text (blob_not_found msg) = "Blob Not Found: " <> msg
error_text (rate_limited msg) = "Rate Limited: " <> msg
error_text (quota_exceeded msg) = "Quota Exceeded: " <> msg

-- The status of `impl IntoResponse for AppError`
abbrev pub error_status : AppError → ℕ
error_status (bad_request msg) = 400
error_status (unauthorized msg) = 401
error_status (internal msg) = 500
error_status (blob_not_found msg) = 404
error_status (rate_limited msg) = 429
error_status (quota_exceeded msg) = 402

pub record RateLimitConfig : Type 0 where
  pub max_requests_per_minute : ℤ
  pub max_requests_per_hour : ℤ
  pub max_requests_per_delegate_key : ℤ
  pub max_storage_bytes : ℤ

-- The fields of `Config` that the modelled code reads.
pub record Config : Type 0 where
  pub sui_rpc_url : String
  pub memwal_account_id : Option String
  pub openai_api_key : Option String
  pub openai_api_base : String
  pub embedding_api_key : Option String
  pub embedding_api_base : Option String
  pub embedding_model : String
  pub embedding_dimensions : Option ℕ
  pub llm_model : String
  pub sui_private_key : Option String
  pub sui_private_keys : List String
  pub package_id : String
  pub registry_id : String
  pub sidecar_url : String
  pub sidecar_secret : Option String
  pub rate_limit : RateLimitConfig
  pub blob_cache_ttl : ℕ
  pub blob_cache_max_bytes : ℕ

pub record AuthInfo : Type 0 where
  pub public_key : String
  pub owner : String
  pub account_id : String
  pub delegate_key : Option String
  pub seal_session : Option String

pub record SearchHit : Type 0 where
  pub blob_id : String
  pub distance : ℕ
