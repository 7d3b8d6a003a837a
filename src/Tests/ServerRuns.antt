-- ===== src/Tests/ServerRuns.antt =====
-- The start of the server and a request to it, at concrete inputs.
use nautilus_memwal_relayer.Prelude.{
  ◌≡◌, refl, String, true, false, Option, none, some, [], ok, str_eq, if◌then◌else◌,
}
use nautilus_memwal_relayer.Prelude.Numbers.{parse_i64}
use nautilus_memwal_relayer.Types.{AuthInfo, Bytes}
use nautilus_memwal_relayer.Prelude.Int.{pos}
use nautilus_memwal_relayer.Db.Owned.{rows_of}
use nautilus_memwal_relayer.World.Env.{Env, reply}
use nautilus_memwal_relayer.World.Rules.{stores}
use nautilus_memwal_relayer.World.Calls.{now, redis_call, query, rpc, rpc_object}
use nautilus_memwal_relayer.Redis.{set_nx}
use nautilus_memwal_relayer.Auth.Verify.{Signed, verify_signature}
use nautilus_memwal_relayer.Auth.Resolve.{resolve_account}
use nautilus_memwal_relayer.Auth.Accepted.{Accepted}
use nautilus_memwal_relayer.Auth.Timestamp.{in_time, age_of}
use nautilus_memwal_relayer.VectorDb.{get_cached_account, cache_delegate_key}
use nautilus_memwal_relayer.Db.Keys.{cached_account, cache_key}
use nautilus_memwal_relayer.Db.Jobs.{row}
use nautilus_memwal_relayer.Sui.Scan.{find_account_by_delegate_key}
use nautilus_memwal_relayer.Sui.Verify.{verify_delegate_key_onchain}
use nautilus_memwal_relayer.Sui.Json.{get_field, get, as_str, as_array, is_bytes}
use nautilus_memwal_relayer.RateLimit.Middleware.{rate_limit_middleware}
use nautilus_memwal_relayer.RateLimit.Window.{check_window, record_in_window}
use nautilus_memwal_relayer.Routes.Remember.{remember_status}
use nautilus_memwal_relayer.Enclave.KeyPair.{EnclaveKeyPair}
use nautilus_memwal_relayer.Server.Requests.{Fields}
use nautilus_memwal_relayer.Server.Router.{Route, remember_status_route, Answer, serve, handle}
use nautilus_memwal_relayer.Server.Isolation.{serve-others}
use nautilus_memwal_relayer.Server.Admitted.{is_refusal, serve-Accepted}
use nautilus_memwal_relayer.Server.Refused.{serve-refused}
use nautilus_memwal_relayer.Server.Start.{Outside, Server}
use nautilus_memwal_relayer.Tests.Sample.{env, config, auth, request, world, key}

abbrev kp : EnclaveKeyPair
kp = record { signing_key = key }

abbrev parse : Bytes → Option Fields
parse body = none

abbrev to_json : Answer → Bytes
to_json a = []

abbrev route : Route
route = remember_status_route "j1"

verified : (verify_signature env config 3 request world).0 ≡ ok (auth, [])
unfolding verify_signature parse_i64 now in_time age_of redis_call set_nx resolve_account
    get_cached_account query cached_account find_account_by_delegate_key rpc
    verify_delegate_key_onchain rpc_object get_field as_str as_array get is_bytes cache_delegate_key
    cache_key
verified = refl

same_caller :
    (info : AuthInfo) (body : Bytes)
    → (verify_signature env config 3 request world).0 ≡ ok (info, body)
    → str_eq info.owner "bob" ≡ false
same_caller info body h = let same : auth ≡ info = cc (verified) in rw (← same) refl

serve-others_example :
    rows_of "bob" (serve env config parse to_json kp 3 route request world).1.db.vectors
    ≡ rows_of "bob" world.db.vectors
unfolding rows_of
serve-others_example =
    serve-others env config parse to_json kp 3 route request "bob" world same_caller
      (λ n. (refl, tt))

not_refused : is_refusal (serve env config parse to_json kp 3 route request world).0 ≡ false
unfolding serve handle verify_signature parse_i64 now in_time age_of redis_call set_nx
    resolve_account get_cached_account query cached_account find_account_by_delegate_key rpc
    verify_delegate_key_onchain rpc_object get_field as_str as_array get is_bytes cache_delegate_key
    cache_key rate_limit_middleware check_window record_in_window remember_status row
not_refused = refl

serve-Accepted_example :
    (info : AuthInfo) × (body : Bytes) × (signed : Signed) × Accepted env config request world
      (verify_signature env config 3 request world).1
      info
      body
      signed
    × ((rate_limit_middleware env config.rate_limit
          (some info)
          "/api/remember/j1"
          (verify_signature env config 3 request world).1).0
        ≡ ok tt)
serve-Accepted_example =
    serve-Accepted env config parse to_json kp 3 route request world not_refused

-- No signature holds.
abbrev forged_env : Env
forged_env = record env { ed25519_verify = λ k m s. false }

refused : is_refusal (serve forged_env config parse to_json kp 3 route request world).0 ≡ true
unfolding serve verify_signature parse_i64 now in_time age_of
refused = refl

serve-refused_example :
    stores (serve forged_env config parse to_json kp 3 route request world).1 ≡ stores world
serve-refused_example =
    serve-refused forged_env config parse to_json kp 3 route request world refused

-- The variables that must be set, and two keys
abbrev var : String → Option String
var name =
    if str_eq name "DATABASE_URL"
    then some "db"
    else if str_eq name "MEMWAL_PACKAGE_ID"
    then some "0xp"
    else if str_eq name "MEMWAL_REGISTRY_ID"
    then some "0xr"
    else if str_eq name "SERVER_SUI_PRIVATE_KEYS"
    then some "k0,k1"
    else none

abbrev outside : Outside
outside = record {
  var = var;
  manifest_dir = "relayer";
  sidecar_spawns = true;
  health = λ attempt. reply 200 "ok";
  database_connects = λ url. true;
  column_dimension = some (pos 1536);
  walrus_urls_valid = λ aggregator publisher. true;
  redis_connects = λ url. true;
  signing_key = key;
  queue_connects = true;
  queue_migrates = true;
  binds = λ address. true;
}
