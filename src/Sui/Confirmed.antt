-- ===== src/Sui/Confirmed.antt =====
-- Where an account that src/relayer/src/sui.rs returns comes from.
use mathlib.Core.Path.{subst}
use mathlib.Core.List.{Memᴰ, append_assoc}
use mathlib.Core.List.Memᴰ
use nautilus_memwal_relayer.Prelude.{
  ℕ, ◌≡◌, refl, sym, ap, ◌∙◌, String, Option, some, Result, ok, err, List, [], ◌∷◌, ◌++◌, str_eq,
  Bool-cases, inl, inr,
}
use nautilus_memwal_relayer.Types.{Bytes}
use nautilus_memwal_relayer.Sui.Named.{Names, read_response-Names}
use nautilus_memwal_relayer.Sui.Verify.{
  OnchainVerifyError, rpc_error, key_not_found, unfinished, verify_delegate_key_onchain,
}
use nautilus_memwal_relayer.Sui.Scan.{after_verify, try_account}
use nautilus_memwal_relayer.World.State.{World}
use nautilus_memwal_relayer.World.Env.{Env}
use nautilus_memwal_relayer.World.Action.{Action}
use nautilus_memwal_relayer.World.Calls.{rpc_object}
use nautilus_memwal_relayer.World.Rules.{
  Quietly, Ends, IsQuiet, Quietly-refl, Quietly-trans, IsQuiet-bind, IsQuiet-rpc_object,
}

-- Between two states the node was asked for the object of that id, and its reply to a call that was
-- made then names the owner and lists the key.
abbrev pub Confirmed : Env → String → Bytes → World → World → String × String → Type 0
Confirmed env rpc_url public_key before after account =
    (made : List (ℕ × String × String)) × (n : ℕ) × (after.object_calls
      ≡ made ++ before.object_calls)
    × Memᴰ (n, rpc_url, account.0) made
    × Names public_key account.1 (env.rpc_object n rpc_url account.0)

Mem-left : {A : Type 0} (x : A) (xs ys : List A) → Memᴰ x xs → Memᴰ x (xs ++ ys)
Mem-left x [] ys m = elim m [ ]
Mem-left x (y ∷ xs) ys m = elim (Memᴰ.cases_cons m) [
  | inl e ↦ Memᴰ.head e
  | inr later ↦ Memᴰ.tail (Mem-left x xs ys later)
]

Mem-right : {A : Type 0} (x : A) (xs ys : List A) → Memᴰ x ys → Memᴰ x (xs ++ ys)
Mem-right x [] ys m = m
Mem-right x (y ∷ xs) ys m = Memᴰ.tail (Mem-right x xs ys m)

module _ (env : Env) (rpc_url : String) (public_key : Bytes) where
  abbrev Hit : Type 0
  Hit = Option (String × String)

  abbrev IsConfirmed : World → World → String × String → Type 0
  IsConfirmed = Confirmed env rpc_url public_key

  -- The account that a scan may have found
  abbrev pub HitConfirmed : World → World → Hit → Type 0
  HitConfirmed before after found =
      (account : String × String) → found ≡ some account → IsConfirmed before after account

  pub Confirmed-earlier :
      (first before after : World) (account : String × String)
      → Quietly first before
      → Confirmed env rpc_url public_key before after account
      → Confirmed env rpc_url public_key first after account
  Confirmed-earlier first before after account q (made, n, traced, m, names) = (
    made ++ q.fresh,
    n,
    traced ∙ ap (λ l. made ++ l) q.traced ∙ sym (append_assoc made q.fresh first.object_calls),
    Mem-left (n, rpc_url, account.0) made q.fresh m,
    names,
  )

  pub Confirmed-later :
      (before after last : World) (account : String × String)
      → Quietly after last
      → Confirmed env rpc_url public_key before after account
      → Confirmed env rpc_url public_key before last account
  Confirmed-later before after last account q (made, n, traced, m, names) = (
    q.fresh ++ made,
    n,
    q.traced ∙ ap (λ l. q.fresh ++ l) traced ∙ sym (append_assoc q.fresh made before.object_calls),
    Mem-right (n, rpc_url, account.0) q.fresh made m,
    names,
  )

  pub verify-Confirmed :
      (account_id : String) (w : World)
      → Ends
          (λ v owner. Confirmed env rpc_url public_key w v (account_id, owner))
          (verify_delegate_key_onchain env rpc_url account_id public_key w)
  unfolding verify_delegate_key_onchain rpc_object
  verify-Confirmed account_id w owner h = (
    (w.calls, rpc_url, account_id) ∷ [],
    w.calls,
    refl,
    Memᴰ.head refl,
    read_response-Names public_key account_id owner (env.rpc_object w.calls rpc_url account_id) h,
  )

  pub IsQuiet-verify :
      (account_id : String)
      → IsQuiet (verify_delegate_key_onchain env rpc_url account_id public_key)
  unfolding verify_delegate_key_onchain
  IsQuiet-verify account_id =
      IsQuiet-bind (rpc_object env rpc_url account_id) _
        (IsQuiet-rpc_object _ env rpc_url account_id) (λ r w. Quietly-refl w)

  after-Confirmed :
      (account_id : String) (verified : Result OnchainVerifyError String) (start w : World)
      (go_on : Action OnchainVerifyError Hit)
      → ((owner : String) → verified ≡ ok owner → IsConfirmed start w (account_id, owner))
      → Ends (HitConfirmed start) (go_on w)
      → Ends (HitConfirmed start) (after_verify env rpc_url public_key account_id verified go_on w)
  after-Confirmed account_id (ok owner) start w go_on here later =
      λ found h account e. subst (IsConfirmed start w) (cc) (here owner refl)
  after-Confirmed account_id (err (key_not_found e)) start w go_on here later = later
  after-Confirmed account_id (err (rpc_error e)) start w go_on here later =
      λ found h. (let failed : ⊥ = cc in absurd failed)
  after-Confirmed account_id (err unfinished) start w go_on here later =
      λ found h. (let failed : ⊥ = cc in absurd failed)

  pub try-Confirmed :
      (account_id : String) (go_on : Action OnchainVerifyError Hit) (start w : World)
      → Quietly start w
      → ((v : World) → Quietly start v → Ends (HitConfirmed start) (go_on v))
      → Ends (HitConfirmed start) (try_account env rpc_url public_key account_id go_on w)
  try-Confirmed account_id go_on start w q later = elim (Bool-cases (str_eq account_id "")) [
    | inl e ↦ rw e (later w q)
    | inr e ↦
        let verified = verify_delegate_key_onchain env rpc_url account_id public_key w in
        rw e (
          after-Confirmed account_id verified.0 start verified.1 go_on
            (λ owner p.
              Confirmed-earlier start w verified.1 (account_id, owner) q
                (verify-Confirmed account_id w owner p))
            (later verified.1 (Quietly-trans q (IsQuiet-verify account_id w))))
  ]

  IsQuiet-after_verify :
      (account_id : String) (verified : Result OnchainVerifyError String)
      (go_on : Action OnchainVerifyError Hit)
      → IsQuiet go_on
      → IsQuiet (after_verify env rpc_url public_key account_id verified go_on)
  IsQuiet-after_verify account_id (ok owner) go_on h w = Quietly-refl w
  IsQuiet-after_verify account_id (err (key_not_found e)) go_on h w = h w
  IsQuiet-after_verify account_id (err (rpc_error e)) go_on h w = Quietly-refl w
  IsQuiet-after_verify account_id (err unfinished) go_on h w = Quietly-refl w

  pub IsQuiet-try :
      (account_id : String) (go_on : Action OnchainVerifyError Hit)
      → IsQuiet go_on
      → IsQuiet (try_account env rpc_url public_key account_id go_on)
  IsQuiet-try account_id go_on h w = elim (Bool-cases (str_eq account_id "")) [
    | inl e ↦ rw e (h w)
    | inr e ↦
        let verified = verify_delegate_key_onchain env rpc_url account_id public_key w in
        rw e (
          Quietly-trans (IsQuiet-verify account_id w)
            (IsQuiet-after_verify account_id verified.0 go_on h verified.1))
  ]
