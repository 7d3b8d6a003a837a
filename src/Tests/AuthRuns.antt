-- ===== src/Tests/AuthRuns.antt =====
-- Runs of src/relayer/src/auth.rs: a request that is accepted, sent twice.
use nautilus_memwal_relayer.Prelude.{◌≡◌, ◌≢◌, refl, [], some, ok, arith}
use nautilus_memwal_relayer.Types.{Bytes, AuthInfo}
use nautilus_memwal_relayer.World.Calls.{query, redis_call, rpc, rpc_object, now}
use nautilus_memwal_relayer.Redis.{set_nx}
use nautilus_memwal_relayer.Auth.Verify.{Signed, verify_signature}
use nautilus_memwal_relayer.Auth.Resolve.{resolve_account}
use nautilus_memwal_relayer.Auth.Accepted.{Accepted, verify_signature-Accepted}
use nautilus_memwal_relayer.Auth.Replay.{verify_signature-once}
use nautilus_memwal_relayer.Auth.Confirmed.{resolve_account-Confirmed}
use nautilus_memwal_relayer.Sui.Confirmed.{Confirmed}
use nautilus_memwal_relayer.Prelude.Numbers.{parse_i64}
use nautilus_memwal_relayer.Auth.Timestamp.{in_time, age_of}
use nautilus_memwal_relayer.VectorDb.{get_cached_account, cache_delegate_key}
use nautilus_memwal_relayer.Db.Keys.{cached_account, cache_key}
use nautilus_memwal_relayer.Sui.Scan.{find_account_by_delegate_key}
use nautilus_memwal_relayer.Sui.Verify.{verify_delegate_key_onchain}
use nautilus_memwal_relayer.Sui.Json.{get_field, get, as_str, as_array, is_bytes}
use nautilus_memwal_relayer.Tests.Sample.{env, config, auth, request, world, key}

abbrev accepted : AuthInfo × Bytes
accepted = (auth, [])

first_run : (verify_signature env config 3 request world).0 ≡ ok accepted
unfolding verify_signature parse_i64 now in_time age_of redis_call set_nx resolve_account
    get_cached_account query cached_account find_account_by_delegate_key rpc
    verify_delegate_key_onchain rpc_object get_field as_str as_array get is_bytes cache_delegate_key
    cache_key
first_run = refl

account_resolved :
    (resolve_account env config 3 "pk" key (some "acc") world).0 ≡ ok ("acc", "alice")
unfolding resolve_account get_cached_account query cached_account find_account_by_delegate_key rpc
    verify_delegate_key_onchain rpc_object get_field as_str as_array get is_bytes cache_delegate_key
    cache_key
account_resolved = refl

verify_signature-Accepted_example :
    (signed : Signed) × Accepted env config request world
      (verify_signature env config 3 request world).1
      auth
      []
      signed
verify_signature-Accepted_example =
    verify_signature-Accepted env config 3 request world auth [] first_run

verify_signature-once_example :
    (verify_signature env config 3 request (verify_signature env config 3 request world).1).0
    ≢ ok accepted
verify_signature-once_example =
    verify_signature-once env config 3 request request world
      (verify_signature env config 3 request world).1 "n-1" accepted refl refl first_run refl
      (omega arith) accepted

resolve_account-Confirmed_example :
    Confirmed env config.sui_rpc_url key world
      (resolve_account env config 3 "pk" key (some "acc") world).1
      ("acc", "alice")
resolve_account-Confirmed_example =
    resolve_account-Confirmed env config 3 "pk" key (some "acc") world ("acc", "alice")
      account_resolved
