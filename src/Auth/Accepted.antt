-- ===== src/Auth/Accepted.antt =====
-- What an accepted request of src/relayer/src/auth.rs has proved about itself.
use mathlib.Core.Path.{subst}
use nautilus_memwal_relayer.Prelude.{
  ℕ, suc, ◌<◌, ◌*◌, ◌++◌, ◌<>◌, length, unwrap_or, ◌≤◌, ◌≡◌, refl, ap, ◌∙◌, String, Bool, true,
  false, Option, none, some, Result, ok, err, arith, map_err,
}
use nautilus_memwal_relayer.Types.{Bytes, Config, AuthInfo}
use nautilus_memwal_relayer.Sui.Confirmed.{Confirmed}
use nautilus_memwal_relayer.Auth.Headers.{Headers, read_headers-Headers}
use nautilus_memwal_relayer.Redis.{StoredValue, set_nx}
use nautilus_memwal_relayer.World.State.{World}
use nautilus_memwal_relayer.World.Env.{Env, answered}
use nautilus_memwal_relayer.World.Action.{Action, ◌>>◌, lift, mapping_err}
use nautilus_memwal_relayer.World.Calls.{spend, redis_call}
use nautilus_memwal_relayer.World.Rules.{Ends, Ends-bind}
use nautilus_memwal_relayer.Auth.Resolve.{resolve_account}
use nautilus_memwal_relayer.Auth.Confirmed.{resolve_account-Confirmed}
use nautilus_memwal_relayer.Auth.Verify.{
  Request, Rejection, Signed, ensure, read_headers, read_body, signature_holds, claim_nonce,
  verify_signature, check_signed, claim_and_attach, attach_auth, rejection_of, canonical_message,
}

Ends-ensure :
    {A : Type 0} (P : World → A → Type 0) (b : Bool) (r : Rejection) (m : Action Rejection A)
    (w : World)
    → (b ≡ true → Ends P (m w))
    → Ends P ((ensure b r >> m) w)
Ends-ensure P true r m w h = h refl
Ends-ensure P false r m w h = λ a e. (let failed : ⊥ = cc in absurd failed)

map_err-eq-ok :
    {E F A : Type 0} (f : E → F) (r : Result E A) {a : A} → map_err f r ≡ ok a → r ≡ ok a
map_err-eq-ok f (ok b) h = cc
map_err-eq-ok f (err e) h = cc

read_body-eq-ok :
    (given : Option Bytes) (body : Bytes)
    → read_body given ≡ ok body
    → (given ≡ some body) × (length body ≤ 2 * 1024 * 1024)
read_body-eq-ok none body h = cc
read_body-eq-ok (some b) body h = ground (arith, h)

-- What is passed on says what was checked: the headers, with the key, the signature and a timestamp
-- near the clock; the body and its length; the signature of the key over the timestamp, the method,
-- the path, the body's hash, the nonce and the hint; the nonce, that its claim found free; and the
-- account with its owner, as the Sui node gave them between the two states.
pub record Accepted (env : Env) (config : Config) (request : Request) (w v : World)
    (info : AuthInfo) (body : Bytes) (signed : Signed) : Type 0 where
  pub headers : Headers env request w signed
  pub body_read : (request.body ≡ some body) × (length body ≤ 2 * 1024 * 1024)
  pub signature :
      env.ed25519_verify signed.public_key
        (env.utf8 (
          signed.timestamp
          <> "."
          <> request.method
          <> "."
          <> request.path_and_query
          <> "."
          <> env.hex_encode (env.sha256 body)
          <> "."
          <> signed.nonce
          <> "."
          <> unwrap_or signed.account_id_hint ""))
        signed.signature
      ≡ true
  pub claimed : (claim_nonce env signed.nonce (spend w)).0 ≡ ok tt
  pub answered : env.redis (suc w.calls) ≡ answered
  pub unused :
      (entry : StoredValue)
      → w.redis.strings ("nonce:" <> signed.nonce) ≡ some entry
      → entry.expires_at < env.clock (suc w.calls)
  pub key : info.public_key ≡ signed.public_key_hex
  pub account : Confirmed env config.sui_rpc_url signed.public_key w v (info.account_id, info.owner)

signature_holds-signed :
    (env : Env) (request : Request) (signed : Signed) (body : Bytes)
    → signature_holds env request signed body ≡ true
    → env.ed25519_verify signed.public_key
        (env.utf8 (
          signed.timestamp
          <> "."
          <> request.method
          <> "."
          <> request.path_and_query
          <> "."
          <> env.hex_encode (env.sha256 body)
          <> "."
          <> signed.nonce
          <> "."
          <> unwrap_or signed.account_id_hint ""))
        signed.signature
      ≡ true
unfolding signature_holds canonical_message
signature_holds-signed env request signed body h = h

-- What `attach_auth` passes on
abbrev Attached : Env → Config → Signed → Bytes → World → World → AuthInfo × Bytes → Type 0
Attached env config signed read w v result =
    (read ≡ result.1)
    × (result.0.public_key ≡ signed.public_key_hex)
    × Confirmed env config.sui_rpc_url signed.public_key w v (result.0.account_id, result.0.owner)

module _ (env : Env) (config : Config) (fuel : ℕ) (signed : Signed) where
  attach_auth-Attached :
      (read : Bytes) (w : World)
      → Ends (Attached env config signed read w) (attach_auth env config fuel signed read w)
  unfolding attach_auth
  attach_auth-Attached read w =
      let resolve =
        resolve_account env config fuel signed.public_key_hex signed.public_key
          signed.account_id_hint in
      Ends-bind (Attached env config signed read w) (mapping_err rejection_of resolve) _ w
        λ account p result h.
          let confirmed =
            resolve_account-Confirmed env config fuel signed.public_key_hex signed.public_key
              signed.account_id_hint w account (map_err-eq-ok rejection_of (resolve w).0 p) in
          let passed : AuthInfo × Bytes = (
            record {
              public_key = signed.public_key_hex;
              owner = account.1;
              account_id = account.0;
              delegate_key = signed.delegate_key;
              seal_session = signed.seal_session;
            },
            read,
          ) in
          let same : passed ≡ result = cc in
          subst (Attached env config signed read w (resolve w).1) same (refl, refl, confirmed)

-- What a claim that goes through has found
claim_nonce-unused :
    (env : Env) (nonce : String) (w : World)
    → (claim_nonce env nonce w).0 ≡ ok tt
    → (env.redis w.calls ≡ answered)
      × ((entry : StoredValue)
          → w.redis.strings ("nonce:" <> nonce) ≡ some entry
          → entry.expires_at < env.clock w.calls)
unfolding claim_nonce redis_call set_nx
claim_nonce-unused env nonce w h = (ground (arith, h), λ entry there. ground (arith, h, there))

-- Where a claim of a nonce leaves the record of calls
object_calls-claim_nonce :
    (env : Env) (nonce : String) (w : World)
    → (claim_nonce env nonce w).1.object_calls ≡ w.object_calls
unfolding claim_nonce redis_call
object_calls-claim_nonce env nonce w = ground arith

Confirmed-from :
    (env : Env) (url : String) (public_key : Bytes) (first before after : World)
    (account : String × String)
    → before.object_calls ≡ first.object_calls
    → Confirmed env url public_key before after account
    → Confirmed env url public_key first after account
Confirmed-from env url public_key first before after account same (made, n, traced, m, names) =
    (made, n, traced ∙ ap (λ l. made ++ l) same, m, names)

-- A request that passes has, in its headers, a UUID for a nonce, a timestamp within 300 seconds of the
-- clock, a key of 32 bytes and a signature of 64 bytes; its body has at most 2 MiB; the signature is
-- the key's, over the timestamp, the method, the path with its query, the SHA-256 of the body, the
-- nonce and the account hint, joined by dots; Redis had no unexpired entry for the nonce; and while it was
-- handled the Sui node was asked for the object of the account that is passed on, and its reply named
-- the owner that is passed on and listed the key.
pub verify_signature-Accepted :
    (env : Env) (config : Config) (fuel : ℕ) (request : Request) (w : World) (info : AuthInfo)
    (body : Bytes)
    → let verified = verify_signature env config fuel request w in
      verified.0 ≡ ok (info, body)
      → (signed : Signed) × Accepted env config request w verified.1 info body signed
unfolding verify_signature check_signed claim_and_attach
verify_signature-Accepted env config fuel request w info body =
    let P : World → AuthInfo × Bytes → Type 0 =
      λ v result. (signed : Signed) × Accepted env config request w v result.0 result.1 signed in
    let all : Ends P (verify_signature env config fuel request w) =
      Ends-bind P (read_headers env request) _ w λ signed p1.
        let headers = read_headers-Headers env request w signed p1 in
        let v : World = (read_headers env request w).1 in
        Ends-bind P (lift (read_body request.body)) _ v λ read p2.
          Ends-ensure P (signature_holds env request signed read) _ _ v λ holds.
            let claim = claim_nonce env signed.nonce in
            Ends-bind P claim _ v λ u p4 result h.
              let claimed : (claim_nonce env signed.nonce (spend w)).0 ≡ ok tt =
                rw (← headers.after) p4 in
              let (same, key, account) =
                attach_auth-Attached env config fuel signed read (claim v).1 result h in
              (
                signed,
                record {
                  headers = headers;
                  body_read = read_body-eq-ok request.body result.1 (p2 ∙ ap ok same);
                  signature =
                      signature_holds-signed env request signed result.1
                        (subst (λ x. signature_holds env request signed x ≡ true) same holds);
                  claimed = claimed;
                  answered = (claim_nonce-unused env signed.nonce (spend w) claimed).0;
                  unused = (claim_nonce-unused env signed.nonce (spend w) claimed).1;
                  key = key;
                  account =
                      Confirmed-from env config.sui_rpc_url signed.public_key w (claim v).1
                        (attach_auth env config fuel signed read (claim v).1).1
                        (result.0.account_id, result.0.owner)
                        (object_calls-claim_nonce env signed.nonce v
                          ∙ ap (λ (x : World). x.object_calls) headers.after)
                        account;
                },
              ) in
    all (info, body)
