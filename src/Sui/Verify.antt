-- ===== src/Sui/Verify.antt =====
-- `verify_delegate_key_onchain` of src/relayer/src/sui.rs.
use nautilus_memwal_relayer.Prelude.{
  String, ◌<>◌, Bool, false, Option, none, some, List, unwrap_or, any, Result, ok, err, ok_or,
  and_then, if◌then◌else◌,
}
use nautilus_memwal_relayer.Types.{Bytes}
use nautilus_memwal_relayer.Sui.Json.{Json, Fields, get, get_field, as_str, as_array, is_bytes}
use nautilus_memwal_relayer.World.Env.{
  Env, RpcReply, not_sent, not_parsed, parsed, RpcResponse, RpcResult, ObjectData, ObjectContent,
}
use nautilus_memwal_relayer.World.Action.{Action, ◌>>=◌, lift}
use nautilus_memwal_relayer.World.Calls.{rpc_object}

-- `unfinished` is not of the source: a scan that the fuel has ended.
pub data OnchainVerifyError : Type 0 where
  rpc_error key_not_found : String → OnchainVerifyError
  unfinished : OnchainVerifyError

abbrev pub Onchain : Type 0 → Type 0
Onchain = Result OnchainVerifyError

unfoldable pub data_of : Option RpcResult → Option ObjectData
data_of none = none
data_of (some r) = r.object_data

unfoldable pub content_of : Option ObjectData → Option ObjectContent
content_of none = none
content_of (some d) = d.content

-- `dk.get("fields").or(Some(dk))`, then its "public_key" as an array
unfoldable pub stored_key : Json → Option (List Json)
stored_key dk = elim (get "public_key" (unwrap_or (get "fields" dk) dk)) [
  | none ↦ none
  | some key ↦ as_array key
]

unfoldable pub holds_key : Bytes → Json → Bool
unfolding stored_key
holds_key public_key dk = elim (stored_key dk) [
  | none ↦ false
  | some stored ↦ is_bytes public_key stored
]

unfoldable pub as_array? : Option Json → Option (List Json)
as_array? none = none
as_array? (some v) = as_array v

unfoldable pub as_str? : Option Json → Option String
as_str? none = none
as_str? (some v) = as_str v

-- The checks on an object's fields: its owner, if it lists the key. The count of keys in the last
-- message is left out.
unfoldable pub owner_of : Bytes → String → Fields → Onchain String
unfolding as_array? as_str? holds_key
owner_of public_key account_id fields =
    and_then (ok_or (as_str? (get_field "owner" fields)) (rpc_error "Missing 'owner' field"))
      λ owner.
        and_then
          (ok_or (as_array? (get_field "delegate_keys" fields))
            (rpc_error "Missing 'delegate_keys' field"))
          λ keys.
            if any (holds_key public_key) keys
            then ok owner
            else err (key_not_found ("Public key not found for account " <> account_id))

unfoldable pub read_response : Bytes → String → RpcReply RpcResponse → Onchain String
unfolding owner_of data_of content_of
read_response public_key account_id (not_sent e) = err (rpc_error ("HTTP request failed: " <> e))
read_response public_key account_id (not_parsed e) =
    err (rpc_error ("Failed to parse RPC response: " <> e))
read_response public_key account_id (parsed response) = elim response.error [
  | some error ↦ err (rpc_error ("RPC error " <> error.code <> ": " <> error.message))
  | none ↦ and_then (ok_or response.result (rpc_error "No result in RPC response")) λ result.
      and_then (ok_or (content_of result.object_data) (rpc_error "Object has no content"))
        λ content.
          and_then (ok_or content.fields (rpc_error "Object has no fields"))
            λ fields. owner_of public_key account_id fields
]

module _ (env : Env) where
  unfoldable pub verify_delegate_key_onchain :
      String → String → Bytes → Action OnchainVerifyError String
  unfolding read_response
  verify_delegate_key_onchain rpc_url account_id public_key = do
    response ← rpc_object env rpc_url account_id
    lift (read_response public_key account_id response)
