-- ===== src/Sui/Ends.antt =====
-- The end of the registry scan (src/relayer/src/sui.rs).
use nautilus_memwal_relayer.Prelude.{
  ℕ, zero, suc, ◌<◌, ◌≡◌, ◌≢◌, refl, String, true, Option, none, some, List, [], ◌∷◌, Result, ok,
  err, Bool-cases, Option-cases, inl, inr, str_eq, arith,
}
use nautilus_memwal_relayer.Types.{Bytes}
use nautilus_memwal_relayer.Sui.Json.{Json, Fields}
use nautilus_memwal_relayer.World.State.{World}
use nautilus_memwal_relayer.World.Env.{
  Env, RpcReply, not_sent, not_parsed, parsed, RpcRequest, RpcResponse, get_object,
  get_dynamic_fields,
}
use nautilus_memwal_relayer.World.Action.{Action, resume, ◌>>=◌, lift}
use nautilus_memwal_relayer.World.Calls.{rpc, rpc_object}
use nautilus_memwal_relayer.Sui.Verify.{
  OnchainVerifyError, rpc_error, key_not_found, unfinished, read_response, owner_of,
  verify_delegate_key_onchain,
}
use nautilus_memwal_relayer.Sui.Scan.{
  Page, received, field_id_of, field_of, account_of, registry_of, table_of, read_page, try_account,
  after_verify, scan_entries, after_page, scan_pages, find_account_by_delegate_key,
}

-- Not the end of the fuel
abbrev Ended : {A : Type 0} → Result OnchainVerifyError A → Type 0
Ended r = r ≢ err unfinished

Ended-received :
    (r : RpcReply Json) (on_send on_parse : String) → Ended (received r on_send on_parse)
Ended-received (not_sent e) on_send on_parse q = cc
Ended-received (not_parsed e) on_send on_parse q = cc
Ended-received (parsed v) on_send on_parse q = cc

Ended-field_id_of : (info : Json) → Ended (field_id_of info)
Ended-field_id_of info q = ground (arith, q)

Ended-table_of : (registry : Json) → Ended (table_of registry)
Ended-table_of registry q = ground (arith, q)

Ended-read_page : (env : Env) (response : RpcReply Json) → Ended (read_page env response)
unfolding read_page
Ended-read_page env response q = ground (arith, q)

Ended-owner_of :
    (public_key : Bytes) (account_id : String) (fields : Fields)
    → Ended (owner_of public_key account_id fields)
unfolding owner_of
Ended-owner_of public_key account_id fields q = ground (arith, q)

Ended-read_response :
    (public_key : Bytes) (account_id : String) (response : RpcReply RpcResponse)
    → Ended (read_response public_key account_id response)
unfolding read_response
Ended-read_response public_key account_id response q = ground (arith, q)

Ended-resume :
    {A B : Type 0} (r : Result OnchainVerifyError A) (f : A → Action OnchainVerifyError B)
    (w : World)
    → Ended r
    → ((a : A) → r ≡ ok a → Ended (f a w).0)
    → Ended (resume r f w).0
Ended-resume (ok a) f w h g = g a refl
Ended-resume (err e) f w h g =
    λ q. (let ended : Path (Result OnchainVerifyError _) (err e) (err unfinished) = cc in h ended)

Ended-bind :
    {A B : Type 0} (m : Action OnchainVerifyError A) (f : A → Action OnchainVerifyError B)
    (w : World)
    → Ended (m w).0
    → ((a : A) → (m w).0 ≡ ok a → Ended (f a (m w).1).0)
    → Ended ((m >>= f) w).0
Ended-bind m f w h g = Ended-resume (m w).0 f (m w).1 h g

module _ (env : Env) (rpc_url : String) (public_key : Bytes) where
  Ended-rpc :
      (request : RpcRequest) (w : World)
      → Ended (rpc env {E = OnchainVerifyError} rpc_url request w).0
  unfolding rpc
  Ended-rpc request w q = cc

  rpc-reply :
      (request : RpcRequest) (w : World) (response : RpcReply Json)
      → (rpc env {E = OnchainVerifyError} rpc_url request w).0 ≡ ok response
      → env.rpc w.calls rpc_url request ≡ response
  unfolding rpc
  rpc-reply request w response h = cc

  Ended-verify :
      (account_id : String) (w : World)
      → Ended (verify_delegate_key_onchain env rpc_url account_id public_key w).0
  unfolding verify_delegate_key_onchain rpc_object
  Ended-verify account_id w =
      Ended-read_response public_key account_id (env.rpc_object w.calls rpc_url account_id)

  Ended-after_verify :
      (account_id : String) (verified : Result OnchainVerifyError String)
      (go_on : Action OnchainVerifyError (Option (String × String))) (w : World)
      → Ended verified
      → Ended (go_on w).0
      → Ended (after_verify env rpc_url public_key account_id verified go_on w).0
  Ended-after_verify account_id (ok owner) go_on w h g = λ q. cc
  Ended-after_verify account_id (err (key_not_found e)) go_on w h g = g
  Ended-after_verify account_id (err (rpc_error e)) go_on w h g = λ q. cc
  Ended-after_verify account_id (err unfinished) go_on w h g = λ q. h refl

  Ended-try :
      (account_id : String) (go_on : Action OnchainVerifyError (Option (String × String)))
      (w : World)
      → ((v : World) → Ended (go_on v).0)
      → Ended (try_account env rpc_url public_key account_id go_on w).0
  Ended-try account_id go_on w g = elim (Bool-cases (str_eq account_id "")) [
    | inl e ↦ rw e (g w)
    | inr e ↦
        let verified = verify_delegate_key_onchain env rpc_url account_id public_key w in
        rw e (
          Ended-after_verify account_id verified.0 go_on verified.1 (Ended-verify account_id w)
            (g verified.1))
  ]

  Ended-scan_entries :
      (entries : List Json) (w : World) → Ended (scan_entries env rpc_url public_key entries w).0
  unfolding scan_entries
  Ended-scan_entries [] w = λ q. cc
  Ended-scan_entries (info ∷ rest) w =
      Ended-bind (lift (field_id_of info)) _ w (Ended-field_id_of info) λ field_id _.
        let ask = rpc env {E = OnchainVerifyError} rpc_url (get_object field_id) in
        Ended-bind ask _ w (Ended-rpc (get_object field_id) w) λ response _.
          Ended-bind (lift (field_of response)) _ (ask w).1
            (Ended-received response "Failed to fetch field: " "Failed to parse field response: ")
            λ field _.
              Ended-try (account_of field) (scan_entries env rpc_url public_key rest) (ask w).1
                (λ v. Ended-scan_entries rest v)

  -- Each page's cursor is further on in the table than the one that it was asked for with.
  abbrev pub GoesOn : (Option String → ℕ) → Type 0
  GoesOn left =
      (n : ℕ) (table_id : String) (cursor : Option String) (page : Page) (next : String)
      → read_page env (env.rpc n rpc_url (get_dynamic_fields table_id cursor 50)) ≡ ok page
      → page.has_next ≡ true
      → page.next_cursor ≡ some next
      → left (some next) < left cursor

  Ended-after_page :
      (found : Option (String × String)) (page : Page)
      (go_on : Action OnchainVerifyError (String × String)) (w : World)
      → ((next : String) → page.has_next ≡ true → page.next_cursor ≡ some next → Ended (go_on w).0)
      → Ended (after_page env rpc_url public_key found page go_on w).0
  Ended-after_page (some hit) page go_on w g = λ q. cc
  Ended-after_page none page go_on w g = elim (Option-cases page.next_cursor) [
    | inl e ↦ λ q. ground (arith, e, q)
    | inr (next, e) ↦ elim (Bool-cases page.has_next) [
      | inl more ↦ rw (more, e) (g next more e)
      | inr last ↦ λ q. ground (arith, last, q)
    ]
  ]

  Ended-scan_pages :
      (left : Option String → ℕ) (fuel : ℕ) (table_id : String) (cursor : Option String) (w : World)
      → GoesOn left
      → left cursor < fuel
      → Ended (scan_pages env rpc_url public_key fuel table_id cursor w).0
  unfolding scan_pages
  Ended-scan_pages left zero table_id cursor w goes le = absurd (omega arith)
  Ended-scan_pages left (suc fuel) table_id cursor w goes le =
      let request = get_dynamic_fields table_id cursor 50 in
      let ask = rpc env {E = OnchainVerifyError} rpc_url request in
      let v : World = (ask w).1 in
      Ended-bind ask _ w (Ended-rpc request w) λ response p1.
        Ended-bind (lift (read_page env response)) _ v (Ended-read_page env response) λ page p2.
          let entries = scan_entries env rpc_url public_key page.entries in
          Ended-bind entries _ v (Ended-scan_entries page.entries v) λ found p3.
            Ended-after_page found page
              (scan_pages env rpc_url public_key fuel table_id page.next_cursor) (entries v).1
              (λ next more e.
                let same = rpc-reply request w response p1 in
                let further = goes w.calls table_id cursor page next (rw same p2) more e in
                Ended-scan_pages left fuel table_id page.next_cursor (entries v).1 goes
                  (rw e (omega (arith, further, le))))

-- The scan of the registry, whose loop has no bound of its own, ends: where each page that has a next
-- one gives a cursor that is further on in the table, by whatever measure, than the one it was asked
-- for with, a fuel above the measure at the start is never used up, so the scan ends with an account
-- or with an error of the source.
pub find-ends :
    (env : Env) (rpc_url : String) (public_key : Bytes) (left : Option String → ℕ) (fuel : ℕ)
    (registry_id : String) (w : World)
    → GoesOn env rpc_url public_key left
    → left none < fuel
    → (find_account_by_delegate_key env rpc_url public_key fuel registry_id w).0 ≢ err unfinished
unfolding find_account_by_delegate_key
find-ends env rpc_url public_key left fuel registry_id w goes le =
    let request = get_object registry_id in
    let ask = rpc env {E = OnchainVerifyError} rpc_url request in
    Ended-bind ask _ w (Ended-rpc env rpc_url public_key request w) λ response _.
      Ended-bind (lift (registry_of response)) _ (ask w).1
        (Ended-received response "Failed to fetch registry: " "Failed to parse registry response: ")
        λ registry _.
          Ended-bind (lift (table_of registry)) _ (ask w).1 (Ended-table_of registry) λ table_id _.
            Ended-scan_pages env rpc_url public_key left fuel table_id none (ask w).1 goes le
