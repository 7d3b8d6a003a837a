-- ===== src/Sui/ScanConfirmed.antt =====
-- Where an account that the registry scan of src/relayer/src/sui.rs returns comes from.
use mathlib.Core.Path.{subst}
use nautilus_memwal_relayer.Prelude.{
  ℕ, zero, suc, ◌≡◌, refl, String, ◌||◌, not, Option, none, some, List, [], ◌∷◌, is_none,
  Bool-cases, inl, inr,
}
use nautilus_memwal_relayer.Types.{Bytes}
use nautilus_memwal_relayer.Sui.Json.{Json}
use nautilus_memwal_relayer.Sui.Verify.{OnchainVerifyError}
use nautilus_memwal_relayer.Sui.Scan.{
  Page, after_page, field_id_of, registry_of, table_of, field_of, account_of, read_page,
  scan_entries, scan_pages, find_account_by_delegate_key,
}
use nautilus_memwal_relayer.Sui.Confirmed.{Confirmed, HitConfirmed, try-Confirmed, IsQuiet-try}
use nautilus_memwal_relayer.World.State.{World}
use nautilus_memwal_relayer.World.Env.{Env, get_object, get_dynamic_fields}
use nautilus_memwal_relayer.World.Action.{Action, lift}
use nautilus_memwal_relayer.World.Calls.{rpc}
use nautilus_memwal_relayer.World.Rules.{
  Quietly, Quietly-trans, Ends, Ends-bind, IsQuiet, Quietly-refl, IsQuiet-bind, IsQuiet-rpc,
}

module _ (env : Env) (rpc_url : String) (public_key : Bytes) where
  abbrev IsConfirmed : World → World → String × String → Type 0
  IsConfirmed = Confirmed env rpc_url public_key

  IsQuiet-scan_entries :
      (entries : List Json) → IsQuiet (scan_entries env rpc_url public_key entries)
  unfolding scan_entries
  IsQuiet-scan_entries [] = λ w. Quietly-refl w
  IsQuiet-scan_entries (info ∷ rest) =
      IsQuiet-bind (lift (field_id_of info)) _ (λ w. Quietly-refl w)
        λ field_id.
          IsQuiet-bind (rpc env rpc_url (get_object field_id)) _
            (IsQuiet-rpc OnchainVerifyError env rpc_url (get_object field_id))
            λ response.
              IsQuiet-bind (lift (field_of response)) _ (λ w. Quietly-refl w)
                λ field.
                  IsQuiet-try env rpc_url public_key (account_of field)
                    (scan_entries env rpc_url public_key rest) (IsQuiet-scan_entries rest)

  scan_entries-Confirmed :
      (entries : List Json) (start w : World)
      → Quietly start w
      → Ends
          (HitConfirmed env rpc_url public_key start)
          (scan_entries env rpc_url public_key entries w)
  unfolding scan_entries
  scan_entries-Confirmed [] start w q =
      λ found h account e. (let nothing : ⊥ = cc in absurd nothing)
  scan_entries-Confirmed (info ∷ rest) start w q =
      let P = HitConfirmed env rpc_url public_key start in
      Ends-bind P (lift (field_id_of info)) _ w λ field_id _.
        let ask = rpc env {E = OnchainVerifyError} rpc_url (get_object field_id) in
        Ends-bind P ask _ w λ response _.
          Ends-bind P (lift (field_of response)) _ (ask w).1 λ field _.
            try-Confirmed env rpc_url public_key (account_of field)
              (scan_entries env rpc_url public_key rest) start (ask w).1
              (Quietly-trans q (IsQuiet-rpc OnchainVerifyError env rpc_url (get_object field_id) w))
              (λ v q'. scan_entries-Confirmed rest start v q')

  page-Confirmed :
      (found : Option (String × String)) (page : Page)
      (go_on : Action OnchainVerifyError (String × String)) (start w : World)
      → ((account : String × String) → found ≡ some account → IsConfirmed start w account)
      → Ends (IsConfirmed start) (go_on w)
      → Ends (IsConfirmed start) (after_page env rpc_url public_key found page go_on w)
  page-Confirmed (some account) page go_on start w here later =
      λ hit h. subst (IsConfirmed start w) (cc) (here account refl)
  page-Confirmed none page go_on start w here later =
      elim (Bool-cases (not page.has_next || is_none page.next_cursor)) [
        | inl e ↦ rw e (λ hit h. (let failed : ⊥ = cc in absurd failed))
        | inr e ↦ rw e later
      ]

  scan_pages-Confirmed :
      (fuel : ℕ) (table_id : String) (cursor : Option String) (start w : World)
      → Quietly start w
      → Ends (IsConfirmed start) (scan_pages env rpc_url public_key fuel table_id cursor w)
  unfolding scan_pages
  scan_pages-Confirmed zero table_id cursor start w q =
      λ hit h. (let failed : ⊥ = cc in absurd failed)
  scan_pages-Confirmed (suc fuel) table_id cursor start w q =
      let request = get_dynamic_fields table_id cursor 50 in
      let ask = rpc env {E = OnchainVerifyError} rpc_url request in
      let v : World = (ask w).1 in
      let q' = Quietly-trans q (IsQuiet-rpc OnchainVerifyError env rpc_url request w) in
      Ends-bind (IsConfirmed start) ask _ w λ response _.
        Ends-bind (IsConfirmed start) (lift (read_page env response)) _ v λ page _.
          let entries = scan_entries env rpc_url public_key page.entries in
          Ends-bind (IsConfirmed start) entries _ v λ found p.
            page-Confirmed found page
              (scan_pages env rpc_url public_key fuel table_id page.next_cursor) start (entries v).1
              (scan_entries-Confirmed page.entries start v q' found p)
              (scan_pages-Confirmed fuel table_id page.next_cursor start (entries v).1
                (Quietly-trans q' (IsQuiet-scan_entries page.entries v)))

  IsQuiet-after_page :
      (found : Option (String × String)) (page : Page)
      (go_on : Action OnchainVerifyError (String × String))
      → IsQuiet go_on
      → IsQuiet (after_page env rpc_url public_key found page go_on)
  IsQuiet-after_page (some account) page go_on h w = Quietly-refl w
  IsQuiet-after_page none page go_on h w =
      elim (Bool-cases (not page.has_next || is_none page.next_cursor)) [
        | inl e ↦ rw e (Quietly-refl w)
        | inr e ↦ rw e (h w)
      ]

  IsQuiet-scan_pages :
      (fuel : ℕ) (table_id : String) (cursor : Option String)
      → IsQuiet (scan_pages env rpc_url public_key fuel table_id cursor)
  unfolding scan_pages
  IsQuiet-scan_pages zero table_id cursor = λ w. Quietly-refl w
  IsQuiet-scan_pages (suc fuel) table_id cursor =
      let request = get_dynamic_fields table_id cursor 50 in
      IsQuiet-bind (rpc env rpc_url request) _ (IsQuiet-rpc OnchainVerifyError env rpc_url request)
        λ response.
          IsQuiet-bind (lift (read_page env response)) _ (λ w. Quietly-refl w)
            λ page.
              IsQuiet-bind (scan_entries env rpc_url public_key page.entries) _
                (IsQuiet-scan_entries page.entries)
                λ found.
                  IsQuiet-after_page found page
                    (scan_pages env rpc_url public_key fuel table_id page.next_cursor)
                    (IsQuiet-scan_pages fuel table_id page.next_cursor)

  pub IsQuiet-find :
      (fuel : ℕ) (registry_id : String)
      → IsQuiet (find_account_by_delegate_key env rpc_url public_key fuel registry_id)
  unfolding find_account_by_delegate_key
  IsQuiet-find fuel registry_id =
      let request = get_object registry_id in
      IsQuiet-bind (rpc env rpc_url request) _ (IsQuiet-rpc OnchainVerifyError env rpc_url request)
        λ response.
          IsQuiet-bind (lift (registry_of response)) _ (λ w. Quietly-refl w)
            λ registry.
              IsQuiet-bind (lift (table_of registry)) _ (λ w. Quietly-refl w)
                λ table_id. IsQuiet-scan_pages fuel table_id none

  pub find-Confirmed :
      (fuel : ℕ) (registry_id : String) (w : World)
      → Ends
          (Confirmed env rpc_url public_key w)
          (find_account_by_delegate_key env rpc_url public_key fuel registry_id w)
  unfolding find_account_by_delegate_key
  find-Confirmed fuel registry_id w =
      let request = get_object registry_id in
      let ask = rpc env {E = OnchainVerifyError} rpc_url request in
      Ends-bind (IsConfirmed w) ask _ w λ response _.
        Ends-bind (IsConfirmed w) (lift (registry_of response)) _ (ask w).1 λ registry _.
          Ends-bind (IsConfirmed w) (lift (table_of registry)) _ (ask w).1 λ table_id _.
            scan_pages-Confirmed fuel table_id none w (ask w).1
              (IsQuiet-rpc OnchainVerifyError env rpc_url request w)
