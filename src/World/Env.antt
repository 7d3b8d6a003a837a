-- ===== src/World/Env.antt =====
-- Everything outside the relayer's own code: the clock, the database and Redis connections, the job
-- storage, the HTTP services, and the crates for base64, hex, SHA-256, Ed25519, UUIDs and JSON.
-- A call is answered according to its number, so an environment may answer the same call
-- differently at different times.
use nautilus_memwal_relayer.Prelude.{ℕ, String, Bool, Option, List, Result}
use nautilus_memwal_relayer.Sui.Json.{Json, Fields}
use nautilus_memwal_relayer.Types.{Bytes, Embedding}
use nautilus_memwal_relayer.Db.Vectors.{VectorEntry}

-- What becomes of a statement: it ran, it was refused, or it ran and its answer was lost.
pub data Outcome : Type 0 where
  answered : Outcome
  refused lost : String → Outcome

-- The JSON bodies of the requests to the sidecar and to the model providers.
pub data Payload : Type 0 where
  seal_encrypt : (data_b64 owner package_id : String) → Payload
  seal_decrypt : (data_b64 private_key package_id account_id : String) → Payload
  walrus_upload :
      (data_b64 : String) (key_index : ℕ) (owner namespace package_id : String) (epochs : ℕ)
      (defer_transfer : Bool) (agent_id : Option String)
      → Payload
  set_metadata :
      (blobs : List (String × String)) (owner package_id : String) (agent_id : Option String)
      (key_index : ℕ)
      → Payload
  query_blobs : (owner : String) (namespace package_id : Option String) → Payload
  embeddings : (model input : String) (dimensions : Option ℕ) → Payload
  -- the temperature is in tenths
  chat : (model : String) (messages : List (String × String)) (temperature : ℕ) → Payload

pub record Request : Type 0 where
  pub url : String
  pub bearer : Option String
  pub payload : Payload

-- `send()` fails, or gives a status and a body.
pub data Reply : Type 0 where
  unreachable : String → Reply
  reply : (status : ℕ) (body : String) → Reply

pub data Download : Type 0 where
  data_read : Bytes → Download
  read_failed : String → Download
  read_timed_out : Download

pub record UploadResponse : Type 0 where
  pub blob_id : String
  pub object_id : Option String
  pub transfer_status : Option String

pub record OnChainBlob : Type 0 where
  pub blob_id : String
  pub object_id : String
  pub namespace : String
  pub package_id : String

-- What a request that is passed on gives: no answer, an answer whose body is cut off, or all of it.
pub data Forwarded : Type 0 where
  not_reached : String → Forwarded
  body_lost : (status : ℕ) → String → Forwarded
  forwarded : (status : ℕ) (body : Bytes) → Forwarded

-- The Sui JSON-RPC calls, and what a call gives: a failure to send, a body that does not parse, or
-- the value. `sui_getObject` is also read at the types of src/relayer/src/sui.rs.
pub data RpcRequest : Type 0 where
  get_object : (object_id : String) → RpcRequest
  get_dynamic_fields : (table_id : String) (cursor : Option String) (limit : ℕ) → RpcRequest

pub data RpcReply (A : Type 0) : Type 0 where
  not_sent not_parsed : String → RpcReply A
  parsed : A → RpcReply A

pub record ObjectContent : Type 0 where
  pub fields : Option Fields

pub record ObjectData : Type 0 where
  pub content : Option ObjectContent

pub record RpcResult : Type 0 where
  pub object_data : Option ObjectData

pub record RpcError : Type 0 where
  pub code : String
  pub message : String

pub record RpcResponse : Type 0 where
  pub result : Option RpcResult
  pub error : Option RpcError

pub record Env : Type 0 where
  -- milliseconds since the epoch
  pub clock : ℕ → ℕ
  pub database : ℕ → Outcome
  pub redis : ℕ → Outcome
  pub storage : ℕ → Outcome
  pub http : ℕ → Request → Reply
  pub read_blob : ℕ → String → Download
  pub new_uuid : ℕ → String
  -- which rows the scan of the index over the embeddings reaches, for a search with that vector
  pub reaches : ℕ → Embedding → VectorEntry → Bool
  -- pgvector's `<=>`
  pub distance : Embedding → Embedding → ℕ
  pub base64_encode : Bytes → String
  pub base64_decode : String → Result String Bytes
  pub utf8 : String → Bytes
  pub from_utf8 : Bytes → Result String String
  pub to_lowercase : String → String
  -- the printed form of an HTTP status
  pub status_text : ℕ → String
  -- `serde_json`
  pub parse_error : String → Option String
  pub parse_encrypted : String → Result String String
  pub parse_decrypted : String → Result String String
  pub parse_upload : String → Result String UploadResponse
  pub parse_transferred : String → Result String ℕ
  pub parse_blobs : String → Result String (List OnChainBlob)
  pub parse_embeddings : String → Result String (List Embedding)
  pub parse_choices : String → Result String (List String)
  -- the Sui node
  pub rpc : ℕ → String → RpcRequest → RpcReply Json
  pub rpc_object : ℕ → String → String → RpcReply RpcResponse
  pub print_json : Json → String
  -- `uuid`, `hex`, `sha2`, `ed25519_dalek`
  pub is_uuid : String → Bool
  pub hex_decode : String → Option Bytes
  pub hex_encode : Bytes → String
  pub sha256 : Bytes → Bytes
  pub is_verifying_key : Bytes → Bool
  pub ed25519_verify : (key message signature : Bytes) → Bool
  pub ed25519_public : (signing_key : Bytes) → Bytes
  pub ed25519_sign : (signing_key message : Bytes) → Bytes
  -- `OsRng`, where it makes a signing key
  pub random_key : ℕ → Bytes
  -- `bcs::to_bytes` of an `IntentMessage` (src/relayer/src/enclave.rs), field by field
  pub bcs_intent : (intent timestamp_ms : ℕ) (payload : Bytes) → Bytes
  -- `{:.2}` of 1 minus a distance
  pub relevance_text : ℕ → String
  -- a request that is passed on to the sidecar as it came
  pub forward : ℕ → (url : String) → Bytes → Forwarded
