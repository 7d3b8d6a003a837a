-- ===== src/Server/Start.antt =====
-- The start of the server (src/relayer/src/main.rs): the sidecar, the connections, the settings and
-- the workers. Whether a service can be reached is a parameter.
use nautilus_memwal_relayer.Prelude.{
  ℕ, zero, suc, ◌+◌, ◌-◌, ◌^◌, ◌%◌, String, ◌<>◌, Bool, true, false, Option, none, some, List, [],
  ◌∷◌, Result, ok, err, unwrap_or, str_eq, nat_eq, show, if◌then◌else◌,
}
use nautilus_memwal_relayer.Prelude.Int.{ℤ, pos, negsuc}
use nautilus_memwal_relayer.Types.KeyPool
use nautilus_memwal_relayer.Types.KeyPool.{KeyPool}
use nautilus_memwal_relayer.Types.Settings.{
  Settings, from_env, number_of, default_embedding_cache_ttl_secs,
}
use nautilus_memwal_relayer.World.Env.{Reply, unreachable, reply}
use nautilus_memwal_relayer.Clients.{is_success}
use nautilus_memwal_relayer.Enclave.KeyPair.{EnclaveKeyPair}
use nautilus_memwal_relayer.Enclave.Logs
use nautilus_memwal_relayer.Enclave.Logs.{LogBuffer}

-- What the world outside does at the start
pub record Outside : Type 0 where
  pub var : String → Option String
  -- the directory of the crate, for local development
  pub manifest_dir : String
  pub sidecar_spawns : Bool
  -- the answer of the sidecar's health check, by the attempt
  pub health : ℕ → Reply
  pub database_connects : String → Bool
  -- `atttypmod` of the embedding column, where it can be read
  pub column_dimension : Option ℤ
  pub walrus_urls_valid : (aggregator publisher : String) → Bool
  pub redis_connects : String → Bool
  pub signing_key : List ℕ
  pub queue_connects : Bool
  pub queue_migrates : Bool
  pub binds : String → Bool

pub record Command : Type 0 where
  pub program : String
  pub args : List String
  pub current_dir : String

-- `Path::join`
abbrev pub join : String → String → String
join dir name = dir <> "/" <> name

abbrev pub is_enclave : (String → Option String) → Bool
is_enclave var = elim (var "ENCLAVE_MODE") [ none ↦ false | some v ↦ str_eq v "true" ]

unfoldable pub sidecar_command : Outside → Command
sidecar_command outside =
    let scripts_dir =
      unwrap_or (outside.var "SIDECAR_SCRIPTS_DIR") (join outside.manifest_dir "scripts") in
    if is_enclave outside.var
    then record {
      program = "/usr/local/bin/node";
      args =
          join (join (join scripts_dir "node_modules") ".bin") "tsx"
          ∷ join scripts_dir "sidecar-server.ts"
          ∷ [];
      current_dir = scripts_dir;
    }
    else record {
      program = "npx";
      args = "tsx" ∷ "sidecar-server.ts" ∷ [];
      current_dir = scripts_dir;
    }

abbrev pub is_healthy : Reply → Bool
is_healthy (unreachable e) = false
is_healthy (reply status body) = is_success status

-- The loop over the attempts: so many are left, and that one is next. The attempt that succeeds.
unfoldable pub wait_ready : (ℕ → Reply) → ℕ → ℕ → Option ℕ
wait_ready health zero attempt = none
wait_ready health (suc left) attempt =
    let later = wait_ready health left (suc attempt) in
    if is_healthy (health attempt) then some attempt else later

abbrev pub attempts : ℕ
attempts = 30

-- `as u32`, of an `i32`
abbrev pub as_u32 : ℤ → ℕ
as_u32 (pos n) = n % 2 ^ 32
as_u32 (negsuc n) = 2 ^ 32 - (1 + n)

-- The warning where the column's dimension is not the expected one.
abbrev pub dimension_mismatch : Option ℕ → Option ℤ → Option (ℤ × ℕ)
dimension_mismatch none actual = none
dimension_mismatch (some expected) none = none
dimension_mismatch (some expected) (some actual) =
    if nat_eq (as_u32 actual) expected then none else some (actual, expected)

pub record Worker : Type 0 where
  pub name : String
  pub concurrency : ℕ

-- The monitors, which are started again whenever they end
unfoldable pub workers : (String → Option String) → List Worker
workers var =
    record { name = "meta-transfer"; concurrency = 2 }
    ∷ record { name = "remember"; concurrency = 3 }
    ∷ record { name = "bulk-remember"; concurrency = 2 }
    ∷ record {
      name = "wallet_jobs";
      concurrency = unwrap_or (number_of var "WALLET_JOB_CONCURRENCY" 64) 8;
    }
    ∷ []

pub record Server : Type 0 where
  pub settings : Settings
  pub key_pool : KeyPool
  pub eph_kp : EnclaveKeyPair
  pub logs : LogBuffer
  pub dimension_warning : Option (ℤ × ℕ)
  pub embedding_cache_ttl : ℕ
  pub workers : List Worker
  pub address : String
  -- the attempt at which the sidecar was ready
  pub ready : ℕ

-- A step that must succeed, or the process ends with that message.
abbrev pub expect : {A : Type 0} → Bool → String → Result String A → Result String A
expect true msg rest = rest
expect false msg rest = err msg

abbrev pub expect_some :
    {A B : Type 0} → Option A → String → (A → Result String B) → Result String B
expect_some none msg f = err msg
expect_some (some a) msg f = f a

abbrev pub address_of : Outside → Settings → String
address_of outside settings =
    (if is_enclave outside.var then "127.0.0.1" else "0.0.0.0") <> ":" <> show settings.port

unfoldable pub start : Outside → Result String Server
unfolding wait_ready workers
start outside = expect_some (from_env outside.var) "the configuration is not complete" (λ settings.
    expect outside.sidecar_spawns "Failed to start TS sidecar. Is Node.js installed?" (
      expect_some (wait_ready outside.health attempts 1)
        "TS sidecar failed to start after 15s. Check scripts/sidecar-server.ts"
        (λ ready.
          expect (outside.database_connects settings.database_url) "Failed to connect to PostgreSQL"
            (expect
              (outside.walrus_urls_valid settings.walrus_aggregator_url
                settings.walrus_publisher_url)
              "Failed to initialize Walrus client (invalid URL?)"
              (expect (outside.redis_connects settings.redis_url)
                "Failed to connect to Redis for rate limiting"
                (expect outside.queue_connects "Failed to connect to PostgreSQL for Apalis" (
                  expect outside.queue_migrates "Apalis postgres migration failed" (
                    expect (outside.binds (address_of outside settings)) "Failed to bind address" (
                      ok (record {
                        settings = settings;
                        key_pool = KeyPool.new settings.config.sui_private_keys;
                        eph_kp = record { signing_key = outside.signing_key };
                        logs = Logs.new 1000;
                        dimension_warning =
                            dimension_mismatch settings.config.embedding_dimensions
                              outside.column_dimension;
                        embedding_cache_ttl =
                            unwrap_or (number_of outside.var "EMBEDDING_CACHE_TTL_SECS" 64)
                              default_embedding_cache_ttl_secs;
                        workers = workers outside.var;
                        address = address_of outside settings;
                        ready = ready;
                      }))))))))))
