-- ===== src/Auth/Confirmed.antt =====
-- Where the account of a resolved key (src/relayer/src/auth.rs) comes from.
use mathlib.Core.Path.{subst}
use nautilus_memwal_relayer.Prelude.{
  ℕ, ◌≡◌, refl, String, ◌<>◌, Option, none, some, or_option, Result, ok, err, ok_or, map_err,
}
use nautilus_memwal_relayer.Types.{Bytes, Config, AppError}
use nautilus_memwal_relayer.Sui.Verify.{
  OnchainVerifyError, rpc_error, key_not_found, unfinished, verify_delegate_key_onchain,
}
use nautilus_memwal_relayer.Sui.Scan.{find_account_by_delegate_key}
use nautilus_memwal_relayer.Sui.Confirmed.{
  Confirmed, Confirmed-earlier, Confirmed-later, verify-Confirmed, IsQuiet-verify,
}
use nautilus_memwal_relayer.Sui.ScanConfirmed.{find-Confirmed, IsQuiet-find}
use nautilus_memwal_relayer.VectorDb.{get_cached_account, cache_delegate_key}
use nautilus_memwal_relayer.Auth.Resolve.{
  ResolveError, unresolved, onchain_text, resolve_fallback, resolve_registry, resolve_account,
  after_scan, after_check, after_cache,
}
use nautilus_memwal_relayer.Auth.Quiet.{finish, IsQuiet-cache_key, IsQuiet-cached}
use nautilus_memwal_relayer.World.State.{World}
use nautilus_memwal_relayer.World.Env.{Env}
use nautilus_memwal_relayer.World.Action.{lift, attempt, mapping_err}
use nautilus_memwal_relayer.World.Rules.{Quietly, Quietly-trans, Ends, Ends-bind}

map_err-eq-ok :
    {E F A : Type 0} (f : E → F) (r : Result E A) {a : A} → map_err f r ≡ ok a → r ≡ ok a
map_err-eq-ok f (ok b) h = cc
map_err-eq-ok f (err e) h = cc

module _ (env : Env) (config : Config) (fuel : ℕ) (public_key_hex : String)
    (public_key : Bytes) where
  abbrev IsConfirmed : World → World → String × String → Type 0
  IsConfirmed = Confirmed env config.sui_rpc_url public_key

  finish-Confirmed :
      (start w : World) (account_id owner : String)
      → IsConfirmed start w (account_id, owner)
      → Ends
          (IsConfirmed start)
          (finish env config fuel public_key_hex public_key account_id owner w)
  finish-Confirmed start w account_id owner here account h =
      let keep =
        attempt {F = ResolveError} (cache_delegate_key env public_key_hex account_id owner) in
      subst (IsConfirmed start (keep w).1) (cc) (
        Confirmed-later env config.sui_rpc_url public_key start w (keep w).1 (account_id, owner)
          (IsQuiet-cache_key env config fuel public_key_hex public_key account_id owner w) here)

  fallback-Confirmed :
      (hint : Option String) (start w : World)
      → Quietly start w
      → Ends (IsConfirmed start) (resolve_fallback env config fuel public_key_hex public_key hint w)
  unfolding resolve_fallback
  fallback-Confirmed hint start w q =
      let find =
        ok_or (or_option hint config.memwal_account_id)
          (unresolved "no account found: not in cache, registry, or header") in
      Ends-bind (IsConfirmed start) (lift find) _ w λ account_id _.
        let verify = verify_delegate_key_onchain env config.sui_rpc_url account_id public_key in
        let wrap : OnchainVerifyError → ResolveError = λ e.
          unresolved
            ("fallback account " <> account_id <> " verification failed: " <> onchain_text e) in
        Ends-bind (IsConfirmed start) (mapping_err wrap verify)
          (finish env config fuel public_key_hex public_key account_id) w
          λ owner p. finish-Confirmed start (verify w).1 account_id owner (
            Confirmed-earlier env config.sui_rpc_url public_key start w (verify w).1
              (account_id, owner) q
              (verify-Confirmed env config.sui_rpc_url public_key account_id w owner
                (map_err-eq-ok wrap (verify w).0 p)))

  scan-Confirmed :
      (hint : Option String) (found : Result OnchainVerifyError (String × String)) (start w : World)
      → Quietly start w
      → ((hit : String × String) → found ≡ ok hit → IsConfirmed start w hit)
      → Ends (IsConfirmed start) (after_scan env config fuel public_key_hex public_key hint found w)
  scan-Confirmed hint (ok hit) start w q here = finish-Confirmed start w hit.0 hit.1 (here hit refl)
  scan-Confirmed hint (err unfinished) start w q here =
      λ account h. (let failed : ⊥ = cc in absurd failed)
  scan-Confirmed hint (err (rpc_error e)) start w q here = fallback-Confirmed hint start w q
  scan-Confirmed hint (err (key_not_found e)) start w q here = fallback-Confirmed hint start w q

  registry-Confirmed :
      (hint : Option String) (start w : World)
      → Quietly start w
      → Ends (IsConfirmed start) (resolve_registry env config fuel public_key_hex public_key hint w)
  unfolding resolve_registry
  registry-Confirmed hint start w q =
      let url = config.sui_rpc_url in
      let found = find_account_by_delegate_key env url public_key fuel config.registry_id w in
      scan-Confirmed hint found.0 start found.1
        (Quietly-trans q (IsQuiet-find env url public_key fuel config.registry_id w))
        (λ hit p.
          Confirmed-earlier env url public_key start w found.1 hit q
            (find-Confirmed env url public_key fuel config.registry_id w hit p))

  check-Confirmed :
      (hint : Option String) (account_id : String) (verified : Result OnchainVerifyError String)
      (start w : World)
      → Quietly start w
      → ((owner : String) → verified ≡ ok owner → IsConfirmed start w (account_id, owner))
      → Ends
          (IsConfirmed start)
          (after_check env config fuel public_key_hex public_key hint account_id verified w)
  check-Confirmed hint account_id (ok owner) start w q here =
      λ account h. subst (IsConfirmed start w) (cc) (here owner refl)
  check-Confirmed hint account_id (err e) start w q here = registry-Confirmed hint start w q

  cache-Confirmed :
      (hint : Option String) (cached : Result AppError (Option (String × String))) (start w : World)
      → Quietly start w
      → Ends
          (IsConfirmed start)
          (after_cache env config fuel public_key_hex public_key hint cached w)
  cache-Confirmed hint (ok (some (account_id, cached_owner))) start w q =
      let url = config.sui_rpc_url in
      let verified = verify_delegate_key_onchain env url account_id public_key w in
      check-Confirmed hint account_id verified.0 start verified.1
        (Quietly-trans q (IsQuiet-verify env url public_key account_id w))
        (λ owner p.
          Confirmed-earlier env url public_key start w verified.1 (account_id, owner) q
            (verify-Confirmed env url public_key account_id w owner p))
  cache-Confirmed hint (ok none) start w q = registry-Confirmed hint start w q
  cache-Confirmed hint (err e) start w q = registry-Confirmed hint start w q

  -- Whichever way an account is resolved, from the cache, the registry, the header or the
  -- configuration: between the state before and the state after, the Sui node was asked for the
  -- object of that account, and its reply to a call made then has no error, an `owner` that is the
  -- account's owner, and an array `delegate_keys` with an entry that holds the key's bytes. A cached
  -- row is never trusted.
  pub resolve_account-Confirmed :
      (hint : Option String) (w : World) (account : String × String)
      → let resolved = resolve_account env config fuel public_key_hex public_key hint w in
        resolved.0 ≡ ok account → Confirmed env config.sui_rpc_url public_key w resolved.1 account
  unfolding resolve_account
  resolve_account-Confirmed hint w =
      let cached = get_cached_account env public_key_hex w in
      cache-Confirmed hint cached.0 w cached.1
        (IsQuiet-cached env config fuel public_key_hex public_key w)
