-- ===== src/Auth/Quiet.antt =====
-- The resolution of an account (src/relayer/src/auth.rs) leaves Redis alone.
use nautilus_memwal_relayer.Prelude.{
  refl, ℕ, String, ◌<>◌, Option, none, some, or_option, Result, ok, err, ok_or,
}
use nautilus_memwal_relayer.Types.{AppError, Bytes, Config}
use nautilus_memwal_relayer.Sui.Verify.{
  OnchainVerifyError, rpc_error, key_not_found, unfinished, verify_delegate_key_onchain,
}
use nautilus_memwal_relayer.Sui.Scan.{find_account_by_delegate_key}
use nautilus_memwal_relayer.Sui.Confirmed.{IsQuiet-verify}
use nautilus_memwal_relayer.Sui.ScanConfirmed.{IsQuiet-find}
use nautilus_memwal_relayer.VectorDb.{get_cached_account, cache_delegate_key}
use nautilus_memwal_relayer.Auth.Resolve.{
  ResolveError, unresolved, onchain_text, resolve_fallback, resolve_registry, resolve_account,
  after_scan, after_check, after_cache,
}
use nautilus_memwal_relayer.Auth.Verify.{Signed, attach_auth, rejection_of}
use nautilus_memwal_relayer.World.Env.{Env}
use nautilus_memwal_relayer.World.Action.{Action, ◌>>=◌, pure, lift, attempt, mapping_err}
use nautilus_memwal_relayer.World.Rules.{IsQuiet, IsQuiet-bind, IsQuiet-query, Quietly-refl}

module _ (env : Env) (config : Config) (fuel : ℕ) (public_key_hex : String)
    (public_key : Bytes) where
  pub IsQuiet-cache_key :
      (account_id owner : String)
      → IsQuiet
          (attempt {F = ResolveError} (cache_delegate_key env public_key_hex account_id owner))
  unfolding cache_delegate_key
  IsQuiet-cache_key account_id owner = IsQuiet-query env _ _ (λ now db. refl)

  pub IsQuiet-cached : IsQuiet (attempt {F = ResolveError} (get_cached_account env public_key_hex))
  unfolding get_cached_account
  IsQuiet-cached = IsQuiet-query env _ _ (λ now db. refl)

  -- How an account that was found is kept and given
  abbrev pub finish : String → String → Action ResolveError (String × String)
  finish account_id owner = do
    _ ← attempt (cache_delegate_key env public_key_hex account_id owner)
    pure (account_id, owner)

  IsQuiet-finish : (account_id owner : String) → IsQuiet (finish account_id owner)
  IsQuiet-finish account_id owner = IsQuiet-cache_key account_id owner

  IsQuiet-fallback :
      (hint : Option String)
      → IsQuiet (resolve_fallback env config fuel public_key_hex public_key hint)
  unfolding resolve_fallback
  IsQuiet-fallback hint =
      let find =
        ok_or (or_option hint config.memwal_account_id)
          (unresolved "no account found: not in cache, registry, or header") in
      let check : String → Action ResolveError String = λ account_id.
        mapping_err
          (λ e.
            unresolved
              ("fallback account " <> account_id <> " verification failed: " <> onchain_text e))
          (verify_delegate_key_onchain env config.sui_rpc_url account_id public_key) in
      IsQuiet-bind (lift find) (λ account_id. check account_id >>= finish account_id)
        (λ w. Quietly-refl w)
        (λ account_id.
          IsQuiet-bind (check account_id) (finish account_id)
            (IsQuiet-verify env config.sui_rpc_url public_key account_id)
            (IsQuiet-finish account_id))

  IsQuiet-scan :
      (hint : Option String) (found : Result OnchainVerifyError (String × String))
      → IsQuiet (after_scan env config fuel public_key_hex public_key hint found)
  IsQuiet-scan hint (ok (account_id, owner)) = IsQuiet-finish account_id owner
  IsQuiet-scan hint (err unfinished) = λ w. Quietly-refl w
  IsQuiet-scan hint (err (rpc_error e)) = IsQuiet-fallback hint
  IsQuiet-scan hint (err (key_not_found e)) = IsQuiet-fallback hint

  IsQuiet-registry :
      (hint : Option String)
      → IsQuiet (resolve_registry env config fuel public_key_hex public_key hint)
  unfolding resolve_registry
  IsQuiet-registry hint =
      IsQuiet-bind
        (attempt
          (find_account_by_delegate_key env config.sui_rpc_url public_key fuel config.registry_id))
        (after_scan env config fuel public_key_hex public_key hint)
        (IsQuiet-find env config.sui_rpc_url public_key fuel config.registry_id) (IsQuiet-scan hint)

  IsQuiet-check :
      (hint : Option String) (account_id : String) (verified : Result OnchainVerifyError String)
      → IsQuiet (after_check env config fuel public_key_hex public_key hint account_id verified)
  IsQuiet-check hint account_id (ok owner) = λ w. Quietly-refl w
  IsQuiet-check hint account_id (err e) = IsQuiet-registry hint

  IsQuiet-after_cache :
      (hint : Option String) (cached : Result AppError (Option (String × String)))
      → IsQuiet (after_cache env config fuel public_key_hex public_key hint cached)
  IsQuiet-after_cache hint (ok (some (account_id, cached_owner))) =
      IsQuiet-bind
        (attempt (verify_delegate_key_onchain env config.sui_rpc_url account_id public_key))
        (after_check env config fuel public_key_hex public_key hint account_id)
        (IsQuiet-verify env config.sui_rpc_url public_key account_id)
        (IsQuiet-check hint account_id)
  IsQuiet-after_cache hint (ok none) = IsQuiet-registry hint
  IsQuiet-after_cache hint (err e) = IsQuiet-registry hint

  pub IsQuiet-resolve_account :
      (hint : Option String)
      → IsQuiet (resolve_account env config fuel public_key_hex public_key hint)
  unfolding resolve_account
  IsQuiet-resolve_account hint =
      IsQuiet-bind (attempt (get_cached_account env public_key_hex))
        (after_cache env config fuel public_key_hex public_key hint) IsQuiet-cached
        (IsQuiet-after_cache hint)

pub IsQuiet-attach_auth :
    (env : Env) (config : Config) (fuel : ℕ) (signed : Signed) (body : Bytes)
    → IsQuiet (attach_auth env config fuel signed body)
unfolding attach_auth
IsQuiet-attach_auth env config fuel signed body =
    IsQuiet-bind
      (mapping_err rejection_of (
        resolve_account env config fuel signed.public_key_hex signed.public_key
          signed.account_id_hint))
      _
      (IsQuiet-resolve_account env config fuel signed.public_key_hex signed.public_key
        signed.account_id_hint)
      (λ account w. Quietly-refl w)
