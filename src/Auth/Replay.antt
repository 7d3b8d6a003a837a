-- ===== src/Auth/Replay.antt =====
-- The nonce of an accepted request (src/relayer/src/auth.rs) is refused while Redis keeps it.
use nautilus_memwal_relayer.Prelude.{
  ℕ, suc, ◌+◌, ◌*◌, ◌≤◌, ◌≡◌, ap, ◌∙◌, String, some, [], ◌∷◌, Result, ok, err, arith, eq_refl, ◌≢◌,
  Result-cases, Bool-cases, inl, inr,
}
use nautilus_memwal_relayer.Types.{Bytes, Config, AuthInfo}
use nautilus_memwal_relayer.Redis.{StoredValue, set_nx}
use nautilus_memwal_relayer.World.State.{World}
use nautilus_memwal_relayer.World.Env.{Env}
use nautilus_memwal_relayer.World.Calls.{redis_call, spend}
use nautilus_memwal_relayer.World.Rules.{>>=-eq-ok, >>=-at-ok}
use nautilus_memwal_relayer.Auth.Verify.{
  Request, Rejection, Signed, constant_time, read_headers, read_body, signature_holds, claim_nonce,
  nonce_key, attach_auth, claim_and_attach, check_signed, verify_signature,
}
use nautilus_memwal_relayer.Auth.Headers.{read_headers-Headers}
use nautilus_memwal_relayer.Auth.Accepted.{verify_signature-Accepted}
use nautilus_memwal_relayer.Auth.Quiet.{IsQuiet-attach_auth}

-- The entry that a claim leaves, at that time
abbrev pub nonce_entry : ℕ → StoredValue
nonce_entry at = record { value = b'1' ∷ []; expires_at = at + 600 * 1000 }

claim_nonce-stored :
    (env : Env) (nonce : String) (w : World)
    → (claim_nonce env nonce w).0 ≡ ok tt
    → (claim_nonce env nonce w).1.redis.strings (nonce_key nonce)
      ≡ some (nonce_entry (env.clock w.calls))
unfolding claim_nonce redis_call set_nx
claim_nonce-stored env nonce w h = ground (arith, eq_refl (nonce_key nonce))

claim_nonce-taken :
    (env : Env) (nonce : String) (w : World) (at : ℕ)
    → w.redis.strings (nonce_key nonce) ≡ some (nonce_entry at)
    → env.clock w.calls ≤ at + 600 * 1000
    → (claim_nonce env nonce w).0 ≡ err constant_time
unfolding claim_nonce redis_call set_nx
claim_nonce-taken env nonce w at there early = ground arith

absurd_ok :
    {E A : Type 0} {C : Type 0} {e : E} {a : A} → Path (Result {0, 0} E A) (err e) (ok a) → C
absurd_ok h = cc

absurd_claim : {E A : Type 0} {r : Result {0, 0} E A} {e : E} {a : A} → r ≡ err e → r ≡ ok a → ⊥
absurd_claim h g = cc

module _ (env : Env) (config : Config) (fuel : ℕ) where
  claim_and_attach-stored :
      (signed : Signed) (body : Bytes) (w : World) (result : AuthInfo × Bytes)
      → (claim_and_attach env config fuel signed body w).0 ≡ ok result
      → (claim_and_attach env config fuel signed body w).1.redis.strings (nonce_key signed.nonce)
        ≡ some (nonce_entry (env.clock w.calls))
  unfolding claim_and_attach
  claim_and_attach-stored signed body w result h =
      let claim = claim_nonce env signed.nonce in
      let attach = attach_auth env config fuel signed body in
      let (u, p, h1) = >>=-eq-ok claim (λ _. attach) w h in
      let kept = (IsQuiet-attach_auth env config fuel signed body (claim w).1).redis in
      ap
        (λ (x : Result Rejection (AuthInfo × Bytes) × World).
          x.1.redis.strings (nonce_key signed.nonce))
        (>>=-at-ok claim (λ _. attach) w p)
      ∙ ap (λ r. r.strings (nonce_key signed.nonce)) kept
      ∙ claim_nonce-stored env signed.nonce w p

  check_signed-stored :
      (request : Request) (signed : Signed) (w : World) (result : AuthInfo × Bytes)
      → (check_signed env config fuel request signed w).0 ≡ ok result
      → (check_signed env config fuel request signed w).1.redis.strings (nonce_key signed.nonce)
        ≡ some (nonce_entry (env.clock w.calls))
  unfolding check_signed
  check_signed-stored request signed w result h = elim (Result-cases (read_body request.body)) [
    | inr (e, p) ↦ let bad = rw p at h in absurd_ok bad
    | inl (body, p) ↦ elim (Bool-cases (signature_holds env request signed body)) [
      | inl holds ↦
          rw (p, holds) (claim_and_attach-stored signed body w result (rw (p, holds) at h))
      | inr bad ↦ absurd_ok (rw (p, bad) at h)
    ]
  ]

  -- Where an accepted request leaves its nonce
  accepted-stored :
      (request : Request) (w : World) (nonce : String) (result : AuthInfo × Bytes)
      → request.header "x-nonce" ≡ some nonce
      → (verify_signature env config fuel request w).0 ≡ ok result
      → (verify_signature env config fuel request w).1.redis.strings (nonce_key nonce)
        ≡ some (nonce_entry (env.clock (suc w.calls)))
  unfolding verify_signature
  accepted-stored request w nonce result header h =
      let check = check_signed env config fuel request in
      let (signed, p, h1) = >>=-eq-ok (read_headers env request) check w h in
      let headers = read_headers-Headers env request w signed p in
      let same_nonce : nonce ≡ signed.nonce = ground (arith, headers.nonce, header) in
      let at_claim : (read_headers env request w).1.calls ≡ suc w.calls =
        ap (λ (x : World). x.calls) headers.after in
      let stored = check_signed-stored request signed (read_headers env request w).1 result h1 in
      rw same_nonce (
        ap
          (λ (x : Result Rejection (AuthInfo × Bytes) × World).
            x.1.redis.strings (nonce_key signed.nonce))
          (>>=-at-ok (read_headers env request) check w p)
        ∙ stored
        ∙ ap (λ n. some (nonce_entry (env.clock n))) at_claim)

  -- A nonce is good for one request: after a request has been accepted, no request with the same nonce
  -- header is accepted in a state where Redis keeps at the nonce's key what the first one left there,
  -- for the 600 seconds after the first one's claim.
  pub verify_signature-once :
      (first second : Request) (w v : World) (nonce : String) (result : AuthInfo × Bytes)
      → first.header "x-nonce" ≡ some nonce
      → second.header "x-nonce" ≡ some nonce
      → (verify_signature env config fuel first w).0 ≡ ok result
      → v.redis.strings (nonce_key nonce)
        ≡ (verify_signature env config fuel first w).1.redis.strings (nonce_key nonce)
      → env.clock (suc v.calls) ≤ env.clock (suc w.calls) + 600 * 1000
      → (other : AuthInfo × Bytes) → (verify_signature env config fuel second v).0 ≢ ok other
  verify_signature-once first second w v nonce result header header' accepted kept early other h =
      let stored = accepted-stored first w nonce result header accepted in
      let (signed, passed) = verify_signature-Accepted env config fuel second v other.0 other.1 h in
      let same_nonce : nonce ≡ signed.nonce = ground (arith, passed.headers.nonce, header') in
      let taken =
        claim_nonce-taken env signed.nonce (spend v) (env.clock (suc w.calls))
          (rw (← same_nonce) (kept ∙ stored)) early in
      let claimed = passed.claimed in absurd_claim taken claimed
