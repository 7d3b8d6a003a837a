-- ===== src/Sui/Scan.antt =====
-- `find_account_by_delegate_key` of src/relayer/src/sui.rs: the registry's table of accounts is read
-- page by page, and each account is verified in turn. The source's loop has no bound: the fuel is
-- the number of pages read at most.
use nautilus_memwal_relayer.Prelude.{
  ℕ, zero, suc, String, ◌<>◌, Bool, false, ◌||◌, not, Option, none, some, List, [], ◌∷◌, unwrap_or,
  is_none, Result, ok, err, ok_or, and_then, str_eq, if◌then◌else◌,
}
use nautilus_memwal_relayer.Types.{Bytes}
use nautilus_memwal_relayer.Sui.Json.{Json, get, as_str, as_bool, as_array, pointer}
use nautilus_memwal_relayer.Sui.Verify.{
  OnchainVerifyError, rpc_error, key_not_found, unfinished, Onchain, verify_delegate_key_onchain,
}
use nautilus_memwal_relayer.World.Env.{
  Env, RpcReply, not_sent, not_parsed, parsed, get_object, get_dynamic_fields,
}
use nautilus_memwal_relayer.World.Action.{Action, ◌>>=◌, pure, fail, lift, attempt}
use nautilus_memwal_relayer.World.Calls.{rpc}

abbrev pub str_at : List String → Json → Option String
str_at path v = elim (pointer path v) [ none ↦ none | some u ↦ as_str u ]

abbrev pub received : RpcReply Json → String → String → Onchain Json
received (not_sent e) on_send on_parse = err (rpc_error (on_send <> e))
received (not_parsed e) on_send on_parse = err (rpc_error (on_parse <> e))
received (parsed v) on_send on_parse = ok v

-- What the inner `for` reads of an entry and of its dynamic field.
abbrev pub field_id_of : Json → Onchain String
field_id_of info =
    ok_or (str_at ("objectId" ∷ []) info) (rpc_error "Missing objectId in dynamic field")

abbrev pub field_of : RpcReply Json → Onchain Json
field_of response = received response "Failed to fetch field: " "Failed to parse field response: "

abbrev pub account_of : Json → String
account_of field =
    unwrap_or (str_at ("result" ∷ "data" ∷ "content" ∷ "fields" ∷ "value" ∷ []) field) ""

-- The registry object, and the inner ID of its table of accounts
abbrev pub registry_of : RpcReply Json → Onchain Json
registry_of response =
    received response "Failed to fetch registry: " "Failed to parse registry response: "

abbrev pub table_of : Json → Onchain String
table_of registry =
    ok_or
      (str_at ("result" ∷ "data" ∷ "content" ∷ "fields" ∷ "accounts" ∷ "fields" ∷ "id" ∷ "id" ∷ [])
        registry)
      (rpc_error "Failed to extract accounts table ID from registry")

-- A page's entries, its cursor and its "hasNextPage".
pub record Page : Type 0 where
  pub entries : List Json
  pub next_cursor : Option String
  pub has_next : Bool

abbrev entries_of : Option Json → Option (List Json)
entries_of none = none
entries_of (some v) = as_array v

abbrev flag_of : Option Json → Option Bool
flag_of none = none
flag_of (some v) = as_bool v

module _ (env : Env) where
  unfoldable pub read_page : RpcReply Json → Onchain Page
  read_page response =
      and_then (received response "HTTP request failed: " "Failed to parse response: ") λ v.
        elim (get "error" v) [
          | some e ↦ err (rpc_error ("RPC error: " <> env.print_json e))
          | none ↦ and_then (ok_or (get "result" v) (rpc_error "No result in response")) λ result.
              and_then
                (ok_or (entries_of (get "data" result)) (rpc_error "No data array in response"))
                λ entries. ok (record {
                  entries = entries;
                  next_cursor = str_at ("nextCursor" ∷ []) result;
                  has_next = unwrap_or (flag_of (get "hasNextPage" result)) false;
                })
        ]

module _ (env : Env) (rpc_url : String) (public_key : Bytes) where
  -- The `match` on an account's verification: a hit ends the scan, a missing key goes on.
  abbrev pub after_verify :
      String
      → Result OnchainVerifyError String
      → Action OnchainVerifyError (Option (String × String))
      → Action OnchainVerifyError (Option (String × String))
  after_verify account_id (ok owner) go_on = pure (some (account_id, owner))
  after_verify account_id (err (key_not_found e)) go_on = go_on
  after_verify account_id (err e) go_on = fail e

  -- An entry's account, unless the entry names none.
  abbrev pub try_account :
      String
      → Action OnchainVerifyError (Option (String × String))
      → Action OnchainVerifyError (Option (String × String))
  try_account account_id go_on = if str_eq account_id "" then go_on else do
    verified ← attempt (verify_delegate_key_onchain env rpc_url account_id public_key)
    after_verify account_id verified go_on

  -- The inner `for`: the first account of a page that holds the key.
  unfoldable pub scan_entries : List Json → Action OnchainVerifyError (Option (String × String))
  scan_entries [] = pure none
  scan_entries (info ∷ rest) =
      let go_on = scan_entries rest in
      do
        field_id ← lift (field_id_of info)
        response ← rpc env rpc_url (get_object field_id)
        field ← lift (field_of response)
        try_account (account_of field) go_on

  abbrev not_in_registry : OnchainVerifyError
  not_in_registry = key_not_found "Delegate key not found in any account in the registry"

  -- What follows a page: the account that it held, the next page, or the end.
  abbrev pub after_page :
      Option (String × String)
      → Page
      → Action OnchainVerifyError (String × String)
      → Action OnchainVerifyError (String × String)
  after_page (some hit) page go_on = pure hit
  after_page none page go_on =
      if not page.has_next || is_none page.next_cursor then fail not_in_registry else go_on

  unfoldable pub scan_pages :
      ℕ → String → Option String → Action OnchainVerifyError (String × String)
  unfolding read_page scan_entries
  scan_pages zero table_id cursor = fail unfinished
  scan_pages (suc fuel) table_id cursor = do
    response ← rpc env rpc_url (get_dynamic_fields table_id cursor 50)
    page ← lift (read_page env response)
    hit ← scan_entries page.entries
    after_page hit page (scan_pages fuel table_id page.next_cursor)

  unfoldable pub find_account_by_delegate_key :
      ℕ → String → Action OnchainVerifyError (String × String)
  unfolding scan_pages
  find_account_by_delegate_key fuel registry_id = do
    response ← rpc env rpc_url (get_object registry_id)
    registry ← lift (registry_of response)
    table_id ← lift (table_of registry)
    scan_pages fuel table_id none
