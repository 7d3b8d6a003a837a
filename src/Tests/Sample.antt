-- ===== src/Tests/Sample.antt =====
-- An environment in which every service answers, a configuration, a caller and a table.
use nautilus_memwal_relayer.Prelude.{
  ℕ, zero, suc, String, true, none, some, List, [], ◌∷◌, ok, str_eq, if◌then◌else◌,
}
use nautilus_memwal_relayer.Prelude.Int.{pos}
use nautilus_memwal_relayer.Types.{Bytes, AuthInfo, Config, RateLimitConfig}
use nautilus_memwal_relayer.Types.KeyPool
use nautilus_memwal_relayer.Db.{Database}
use nautilus_memwal_relayer.Db.Vectors.{VectorEntry}
use nautilus_memwal_relayer.Db.Jobs.{new_row}
use nautilus_memwal_relayer.Sui.Json.{number, string, array, object, nil, cons, Items, end, field}
use nautilus_memwal_relayer.World.State.{World, start}
use nautilus_memwal_relayer.World.Env.{
  Env, answered, Payload, seal_encrypt, seal_decrypt, walrus_upload, set_metadata, query_blobs,
  embeddings, chat, Reply, unreachable, reply, data_read, not_sent, parsed, forwarded,
}
use nautilus_memwal_relayer.Auth.Verify.{Request as AuthRequest}

abbrev repeat : ℕ → ℕ → Bytes
repeat zero b = []
repeat (suc n) b = b ∷ repeat n b

abbrev items : Bytes → Items
items [] = nil
items (b ∷ bs) = cons (number b) (items bs)

-- What each service answers
abbrev answer : Payload → Reply
answer (seal_encrypt d o p) = reply 200 "cipher"
answer (seal_decrypt d k p a) = reply 200 "plain"
answer (walrus_upload d k o n p e f a) = reply 200 "blob-9"
answer (set_metadata bs o p a k) = reply 200 ""
answer (query_blobs o n p) = reply 200 ""
answer (embeddings m i d) = reply 200 ""
answer (chat m ms t) = unreachable "down"

abbrev pub key : Bytes
key = repeat 32 7

abbrev pub env : Env
env = record {
  clock = λ n. 1000000;
  database = λ n. answered;
  redis = λ n. answered;
  storage = λ n. answered;
  http = λ n request. answer request.payload;
  read_blob = λ n id. data_read (1 ∷ 2 ∷ []);
  new_uuid = λ n. "fresh";
  reaches = λ n q r. true;
  distance = λ a b. 5;
  base64_encode = λ bs. "AQI=";
  base64_decode = λ s. ok (1 ∷ 2 ∷ []);
  utf8 = λ s. [];
  from_utf8 = λ bs. ok "hello";
  to_lowercase = λ s. s;
  status_text = λ n. "";
  parse_error = λ s. none;
  parse_encrypted = λ s. ok s;
  parse_decrypted = λ s. ok s;
  parse_upload = λ s. ok (record { blob_id = s; object_id = none; transfer_status = none });
  parse_transferred = λ s. ok 1;
  parse_blobs = λ s. ok (
      record { blob_id = "blob-1"; object_id = "0x1"; namespace = "notes"; package_id = "" }
      ∷ record { blob_id = "blob-2"; object_id = "0x2"; namespace = "notes"; package_id = "0xp" }
      ∷ []);
  parse_embeddings = λ s. ok ((3 ∷ []) ∷ []);
  parse_choices = λ s. ok [];
  rpc = λ n url request. not_sent "down";
  rpc_object = λ n url id. parsed (record {
    result = some (record {
      object_data = some (record {
        content = some (record {
          fields = some (
              field "owner" (string "alice") (
                field "delegate_keys"
                  (array (cons (object (field "public_key" (array (items key)) end)) nil)) end));
        });
      });
    });
    error = none;
  });
  print_json = λ v. "";
  is_uuid = λ s. true;
  hex_decode = λ s. some (if str_eq s "pk" then key else repeat 64 9);
  hex_encode = λ bs. "00";
  sha256 = λ bs. [];
  is_verifying_key = λ bs. true;
  ed25519_verify = λ k m s. true;
  ed25519_public = λ k. k;
  ed25519_sign = λ k m. repeat 64 9;
  random_key = λ n. key;
  bcs_intent = λ i t p. i ∷ t ∷ p;
  relevance_text = λ n. "0.95";
  forward = λ n url body. forwarded 200 body;
}

abbrev pub limits : RateLimitConfig
limits = record {
  max_requests_per_minute = pos 60;
  max_requests_per_hour = pos 500;
  max_requests_per_delegate_key = pos 30;
  max_storage_bytes = pos 100;
}

abbrev pub config : Config
config = record {
  sui_rpc_url = "rpc";
  memwal_account_id = none;
  openai_api_key = none;
  openai_api_base = "llm";
  embedding_api_key = none;
  embedding_api_base = none;
  embedding_model = "m";
  embedding_dimensions = none;
  llm_model = "m";
  sui_private_key = some "server";
  sui_private_keys = "k0" ∷ "k1" ∷ [];
  package_id = "0xp";
  registry_id = "registry";
  sidecar_url = "sidecar";
  sidecar_secret = none;
  rate_limit = limits;
  blob_cache_ttl = 0;
  blob_cache_max_bytes = 0;
}

abbrev pub auth : AuthInfo
auth = record {
  public_key = "pk";
  owner = "alice";
  account_id = "acc";
  delegate_key = none;
  seal_session = none;
}

abbrev pub request : AuthRequest
request = record {
  header = λ name.
      if str_eq name "x-public-key"
      then some "pk"
      else if str_eq name "x-signature"
      then some "sig"
      else if str_eq name "x-timestamp"
      then some "1000"
      else if str_eq name "x-nonce"
      then some "n-1"
      else if str_eq name "x-account-id"
      then some "acc"
      else none;
  method = "POST";
  path_and_query = "/api/recall";
  body = some [];
}

abbrev pub entry_of : String → String → VectorEntry
entry_of id owner = record {
  id = id;
  owner = owner;
  namespace = "notes";
  blob_id = "blob-1";
  embedding = 4 ∷ [];
  blob_size_bytes = 10;
}

abbrev pub rows : List VectorEntry
rows = entry_of "v1" "alice" ∷ entry_of "v2" "bob" ∷ []

abbrev pub empty_world : World
empty_world = start (KeyPool.new ("k0" ∷ "k1" ∷ []))

abbrev pub db : Database
db = record {
  vectors = rows;
  keys = [];
  jobs = new_row 1 "j1" "alice" "notes" ∷ new_row 1 "j2" "bob" "notes" ∷ [];
  accounts = [];
}

abbrev pub world : World
world = record empty_world { db = db }
