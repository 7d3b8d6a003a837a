-- ===== src/Types/Settings.antt =====
-- `Config::from_env` of src/relayer/src/types.rs, `RateLimitConfig` of src/relayer/src/rate_limit.rs and
-- the settings that src/relayer/src/main.rs reads. `var` is `std::env::var(…).ok()`.
use nautilus_memwal_relayer.Prelude.{
  ℕ, ◌*◌, String, Option, none, some, List, [], ◌∷◌, map, retain, not, str_eq, trim, unwrap_or,
  or_option, if◌then◌else◌,
}
use nautilus_memwal_relayer.Prelude.Int.{ℤ, pos}
use nautilus_memwal_relayer.Prelude.Numbers.{parse_i64, parse_unsigned, split_commas}
use nautilus_memwal_relayer.Types.{Config, RateLimitConfig}

module _ {A B : Type 0} where
  -- `Option::and_then` and `Option::map`
  abbrev pub and_then : Option A → (A → Option B) → Option B
  and_then none f = none
  and_then (some a) f = f a

  abbrev pub map_option : (A → B) → Option A → Option B
  map_option f none = none
  map_option f (some a) = some (f a)

-- `RateLimitConfig::default`, the Redis address aside
abbrev pub default_limits : RateLimitConfig
default_limits = record {
  max_requests_per_minute = pos 60;
  max_requests_per_hour = pos 500;
  max_requests_per_delegate_key = pos 30;
  max_storage_bytes = pos 1_073_741_824;
}

abbrev pub default_redis_url : String
default_redis_url = "redis://localhost:6379"

-- The keys of `SERVER_SUI_PRIVATE_KEYS`
unfoldable pub parse_keys : String → List String
parse_keys s = retain (λ k. not (str_eq k "")) (map trim (split_commas s))

-- `match network.as_str()`
abbrev pub default_rpc : String → String
default_rpc network =
    if str_eq network "testnet"
    then "https://fullnode.testnet.sui.io:443"
    else if str_eq network "devnet"
    then "https://fullnode.devnet.sui.io:443"
    else "https://fullnode.mainnet.sui.io:443"

-- The cache settings' defaults
abbrev pub default_blob_cache_ttl_secs : ℕ
default_blob_cache_ttl_secs = 14 * 24 * 60 * 60

abbrev pub default_blob_cache_max_bytes : ℕ
default_blob_cache_max_bytes = 512 * 1024

abbrev pub default_embedding_cache_ttl_secs : ℕ
default_embedding_cache_ttl_secs = 10 * 60

-- `Config` with the fields that only the start reads
pub record Settings : Type 0 where
  pub config : Config
  pub port : ℕ
  pub database_url : String
  pub walrus_publisher_url : String
  pub walrus_aggregator_url : String
  pub sui_network : String
  pub allowed_origins : String
  pub redis_url : String

module _ (var : String → Option String) where
  -- `if let Ok(val) = … { if let Ok(n) = val.parse::<i64>() { … } }`
  abbrev pub limit_of : String → ℤ → ℤ
  limit_of name default = unwrap_or (and_then (var name) parse_i64) default

  -- `RateLimitConfig::from_env`, with the Redis address beside it
  unfoldable pub limits_from_env : RateLimitConfig × String
  limits_from_env = (
    record {
      max_requests_per_minute =
          limit_of "RATE_LIMIT_REQUESTS_PER_MINUTE" default_limits.max_requests_per_minute;
      max_requests_per_hour =
          limit_of "RATE_LIMIT_REQUESTS_PER_HOUR" default_limits.max_requests_per_hour;
      max_requests_per_delegate_key =
          limit_of "RATE_LIMIT_DELEGATE_KEY_PER_MINUTE"
            default_limits.max_requests_per_delegate_key;
      max_storage_bytes = limit_of "RATE_LIMIT_STORAGE_BYTES" default_limits.max_storage_bytes;
    },
    unwrap_or (var "REDIS_URL") default_redis_url,
  )

  -- `.ok().and_then(|v| v.parse().ok())`
  abbrev pub number_of : String → ℕ → Option ℕ
  number_of name bits = and_then (var name) (parse_unsigned bits)

  abbrev pub network : String
  network = unwrap_or (var "SUI_NETWORK") "mainnet"

  -- `multi.or(single).unwrap_or_default()`
  unfoldable pub private_keys : List String
  unfolding parse_keys
  private_keys =
      unwrap_or
        (or_option (map_option parse_keys (var "SERVER_SUI_PRIVATE_KEYS"))
          (map_option (λ k. k ∷ []) (var "SERVER_SUI_PRIVATE_KEY")))
        []

  -- The configuration for those required values, with the cache settings of `main`
  unfoldable pub config_of : (package_id registry_id : String) → Config
  unfolding private_keys limits_from_env
  config_of package_id registry_id = record {
    sui_rpc_url = unwrap_or (var "SUI_RPC_URL") (default_rpc network);
    memwal_account_id = var "MEMWAL_ACCOUNT_ID";
    openai_api_key = var "OPENAI_API_KEY";
    openai_api_base = unwrap_or (var "OPENAI_API_BASE") "https://api.openai.com/v1";
    embedding_api_key = var "EMBEDDING_API_KEY";
    embedding_api_base = var "EMBEDDING_API_BASE";
    embedding_model = unwrap_or (var "EMBEDDING_MODEL") "openai/text-embedding-3-small";
    embedding_dimensions = number_of "EMBEDDING_DIMENSIONS" 32;
    llm_model = unwrap_or (var "LLM_MODEL") "openai/gpt-4o-mini";
    sui_private_key = var "SERVER_SUI_PRIVATE_KEY";
    sui_private_keys = private_keys;
    package_id = package_id;
    registry_id = registry_id;
    sidecar_url = unwrap_or (var "SIDECAR_URL") "http://localhost:9000";
    sidecar_secret = var "SIDECAR_AUTH_TOKEN";
    rate_limit = limits_from_env.0;
    blob_cache_ttl = unwrap_or (number_of "BLOB_CACHE_TTL_SECS" 64) default_blob_cache_ttl_secs;
    blob_cache_max_bytes =
        unwrap_or (number_of "BLOB_CACHE_MAX_BYTES" 64) default_blob_cache_max_bytes;
  }

  -- `none` where an `expect` ends the process.
  unfoldable pub from_env : Option Settings
  unfolding config_of limits_from_env
  from_env = and_then (parse_unsigned 16 (unwrap_or (var "PORT") "8000")) (λ port.
      and_then (var "DATABASE_URL") (λ database_url.
        and_then (var "MEMWAL_PACKAGE_ID") (λ package_id.
          map_option
            (λ registry_id. record {
              config = config_of package_id registry_id;
              port = port;
              database_url = database_url;
              walrus_publisher_url =
                  unwrap_or (var "WALRUS_PUBLISHER_URL")
                    "https://publisher.walrus-mainnet.walrus.space";
              walrus_aggregator_url =
                  unwrap_or (var "WALRUS_AGGREGATOR_URL")
                    "https://aggregator.walrus-mainnet.walrus.space";
              sui_network = network;
              allowed_origins = unwrap_or (var "ALLOWED_ORIGINS") "";
              redis_url = limits_from_env.1;
            })
            (var "MEMWAL_REGISTRY_ID"))))
