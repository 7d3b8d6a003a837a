-- ===== src/Tests/ScanRuns.antt =====
-- Runs of src/relayer/src/sui.rs on a registry with one account, in a table of one page and of two.
use nautilus_memwal_relayer.Prelude.{
  ℕ, ◌≡◌, ◌≢◌, refl, String, true, Option, none, some, ok, err, str_eq, if◌then◌else◌, arith,
}
use nautilus_memwal_relayer.Sui.Json.{
  Json, boolean, string, array, object, nil, cons, end, field, get, get_field, as_str, as_array,
  as_bool, pointer, is_bytes,
}
use nautilus_memwal_relayer.Sui.Verify.{unfinished, verify_delegate_key_onchain}
use nautilus_memwal_relayer.Sui.Scan.{read_page, find_account_by_delegate_key}
use nautilus_memwal_relayer.Sui.Ends.{GoesOn, find-ends}
use nautilus_memwal_relayer.World.Env.{Env, RpcRequest, get_object, get_dynamic_fields, parsed}
use nautilus_memwal_relayer.World.Calls.{rpc, rpc_object}
use nautilus_memwal_relayer.Tests.Sample.{env, key, world}

abbrev one : String → Json → Json
one name value = object (field name value end)

abbrev fields : Json → Json
fields value = one "result" (one "data" (one "content" (one "fields" value)))

abbrev registry_answer : RpcRequest → Json
registry_answer (get_object id) =
    if str_eq id "registry"
    then fields (one "accounts" (one "fields" (one "id" (one "id" (string "table")))))
    else fields (one "value" (string "acc"))
registry_answer (get_dynamic_fields table cursor limit) =
    one "result" (one "data" (array (cons (one "objectId" (string "f1")) nil)))

abbrev listed : Env
listed = record env { rpc = λ n url request. parsed (registry_answer request) }

scan_finds :
    (find_account_by_delegate_key listed "rpc" key 1 "registry" world).0 ≡ ok ("acc", "alice")
unfolding find_account_by_delegate_key rpc rpc_object verify_delegate_key_onchain get get_field
    as_str as_array as_bool pointer is_bytes
scan_finds = refl

-- A table of two pages, the first of them empty
abbrev paged_answer : RpcRequest → Json
paged_answer (get_dynamic_fields table none limit) = one "result" (
    object (
      field "data" (array nil)
        (field "nextCursor" (string "c1") (field "hasNextPage" (boolean true) end))))
paged_answer request = registry_answer request

abbrev paged : Env
paged = record env { rpc = λ n url request. parsed (paged_answer request) }

abbrev pages_left : Option String → ℕ
pages_left none = 1
pages_left (some cursor) = 0

paged-GoesOn : GoesOn paged "rpc" key pages_left
unfolding read_page get get_field as_str as_array as_bool pointer
paged-GoesOn n table none page next h more e = omega arith
paged-GoesOn n table (some cursor) page next h more e = (let last : ⊥ = cc in absurd last)

find-ends_example :
    (find_account_by_delegate_key paged "rpc" key 2 "registry" world).0 ≢ err unfinished
find-ends_example =
    find-ends paged "rpc" key pages_left 2 "registry" world paged-GoesOn (omega arith)

paged_finds :
    (find_account_by_delegate_key paged "rpc" key 2 "registry" world).0 ≡ ok ("acc", "alice")
unfolding find_account_by_delegate_key rpc rpc_object verify_delegate_key_onchain get get_field
    as_str as_array as_bool pointer is_bytes
paged_finds = refl
