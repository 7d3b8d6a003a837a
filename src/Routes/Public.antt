-- ===== src/Routes/Public.antt =====
-- The routes of src/relayer/src/routes.rs that need no signature: /health, /config and the proxies
-- /sponsor and /sponsor/execute.
use nautilus_memwal_relayer.Prelude.{
  ℕ, String, ◌<>◌, Result, ok, err, ◌&&◌, leb, ltb, if◌then◌else◌,
}
use nautilus_memwal_relayer.Types.{AppError, internal, Bytes, Config}
use nautilus_memwal_relayer.World.Env.{Env, Forwarded, not_reached, body_lost, forwarded}
use nautilus_memwal_relayer.World.Action.{Action, ◌>>=◌, lift}
use nautilus_memwal_relayer.World.Calls.{forward}

pub record HealthResponse : Type 0 where
  pub status : String
  pub version : String

-- `CARGO_PKG_VERSION` is an argument.
unfoldable pub health : String → HealthResponse
health version = record { status = "ok"; version = version }

pub record ConfigResponse : Type 0 where
  pub package_id : String
  pub network : String
  pub sui_rpc_url : String

-- The network's name is an argument, since nothing else reads it.
unfoldable pub get_config : Config → String → ConfigResponse
get_config config sui_network = record {
  package_id = config.package_id;
  network = sui_network;
  sui_rpc_url = config.sui_rpc_url;
}

pub record ProxyResponse : Type 0 where
  pub status : ℕ
  pub content_type : String
  pub body : Bytes

-- `StatusCode::from_u16(…).unwrap_or(INTERNAL_SERVER_ERROR)`
abbrev pub status_of : ℕ → ℕ
status_of n = if leb 100 n && ltb n 1000 then n else 500

abbrev pub passed_back : String → Forwarded → Result AppError ProxyResponse
passed_back name (not_reached e) = err (internal (name <> " failed: " <> e))
passed_back name (body_lost status e) = err (internal (name <> " read failed: " <> e))
passed_back name (forwarded status body) =
    ok (record { status = status_of status; content_type = "application/json"; body = body })

module _ (env : Env) (config : Config) where
  unfoldable pub sponsor_proxy : Bytes → Action AppError ProxyResponse
  sponsor_proxy body = do
    answer ← forward env (config.sidecar_url <> "/sponsor") body
    lift (passed_back "Sponsor proxy" answer)

  unfoldable pub sponsor_execute_proxy : Bytes → Action AppError ProxyResponse
  sponsor_execute_proxy body = do
    answer ← forward env (config.sidecar_url <> "/sponsor/execute") body
    lift (passed_back "Sponsor execute proxy" answer)
