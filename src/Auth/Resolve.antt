-- ===== src/Auth/Resolve.antt =====
-- `resolve_account` of src/relayer/src/auth.rs: the cache, the registry, then the header's hint or
-- the configured account. The fuel is that of the registry scan.
use nautilus_memwal_relayer.Prelude.{
  ℕ, String, ◌<>◌, Option, some, or_option, Result, ok, err, ok_or,
}
use nautilus_memwal_relayer.Types.{Bytes, Config, AppError}
use nautilus_memwal_relayer.Sui.Verify.{
  OnchainVerifyError, rpc_error, key_not_found, unfinished, verify_delegate_key_onchain,
}
use nautilus_memwal_relayer.Sui.Scan.{find_account_by_delegate_key}
use nautilus_memwal_relayer.VectorDb.{get_cached_account, cache_delegate_key}
use nautilus_memwal_relayer.World.Env.{Env}
use nautilus_memwal_relayer.World.Action.{Action, ◌>>=◌, pure, fail, lift, attempt, mapping_err}

-- `unresolved` carries the source's message; `no_answer` is a registry scan that the fuel has
-- ended.
pub data ResolveError : Type 0 where
  unresolved : String → ResolveError
  no_answer : ResolveError

abbrev pub onchain_text : OnchainVerifyError → String
onchain_text (rpc_error msg) = "Sui RPC error: " <> msg
onchain_text (key_not_found msg) = "Key not found: " <> msg
onchain_text unfinished = ""

module _ (env : Env) (config : Config) (fuel : ℕ) (public_key_hex : String)
    (public_key : Bytes) where
  -- Strategy 3
  unfoldable pub resolve_fallback : Option String → Action ResolveError (String × String)
  resolve_fallback hint = do
    account_id ← lift (
        ok_or (or_option hint config.memwal_account_id)
          (unresolved "no account found: not in cache, registry, or header"))
    owner ←
        mapping_err
          (λ e.
            unresolved
              ("fallback account " <> account_id <> " verification failed: " <> onchain_text e))
          (verify_delegate_key_onchain env config.sui_rpc_url account_id public_key)
    _ ← attempt (cache_delegate_key env public_key_hex account_id owner)
    pure (account_id, owner)

  abbrev pub after_scan :
      Option String
      → Result OnchainVerifyError (String × String)
      → Action ResolveError (String × String)
  after_scan hint (ok (account_id, owner)) = do
    _ ← attempt (cache_delegate_key env public_key_hex account_id owner)
    pure (account_id, owner)
  after_scan hint (err unfinished) = fail no_answer
  after_scan hint (err e) = resolve_fallback hint

  -- Strategy 2
  unfoldable pub resolve_registry : Option String → Action ResolveError (String × String)
  unfolding resolve_fallback
  resolve_registry hint = do
    found ←
        attempt
          (find_account_by_delegate_key env config.sui_rpc_url public_key fuel config.registry_id)
    after_scan hint found

  abbrev pub after_check :
      Option String
      → String
      → Result OnchainVerifyError String
      → Action ResolveError (String × String)
  after_check hint account_id (ok owner) = pure (account_id, owner)
  after_check hint account_id (err e) = resolve_registry hint

  abbrev pub after_cache :
      Option String
      → Result AppError (Option (String × String))
      → Action ResolveError (String × String)
  after_cache hint (ok (some (account_id, cached_owner))) = do
    verified ← attempt (verify_delegate_key_onchain env config.sui_rpc_url account_id public_key)
    after_check hint account_id verified
  after_cache hint _ = resolve_registry hint

  unfoldable pub resolve_account : Option String → Action ResolveError (String × String)
  unfolding resolve_registry
  resolve_account hint = do
    cached ← attempt (get_cached_account env public_key_hex)
    after_cache hint cached
