-- ===== src/Routes/RecallCleanup.antt =====
-- What a failing decryption does to the rows of a blob in POST /api/recall
-- (src/relayer/src/routes.rs, with the error texts of src/relayer/src/seal.rs).
use text.Mathlib.TextLemmas.{append_assoc}
use nautilus_memwal_relayer.Prelude.{
  ℕ, suc, ◌≡◌, sym, ap, ◌∙◌, String, ◌<>◌, true, false, none, ok, arith, contains, Option-cases,
  inl, inr,
}
use nautilus_memwal_relayer.Prelude.Contains.{contains_part}
use nautilus_memwal_relayer.Types.{internal, AuthInfo, Bytes, Config, SearchHit}
use nautilus_memwal_relayer.Db.Vectors.{delete_blob}
use nautilus_memwal_relayer.VectorDb.{delete_by_blob_id}
use nautilus_memwal_relayer.World.State.{World}
use nautilus_memwal_relayer.World.Env
use nautilus_memwal_relayer.World.Env.{Env, answered, reply, data_read, Request}
use nautilus_memwal_relayer.World.Calls.{query, send, read_blob}
use nautilus_memwal_relayer.Clients.{sidecar_failed, sidecar_request, is_success}
use nautilus_memwal_relayer.Clients.Walrus.{download_blob}
use nautilus_memwal_relayer.Clients.Seal.{seal_decrypt}
use nautilus_memwal_relayer.Routes.Recall.{is_permanent, cleanup_expired_blob, fetch_memory}

seal_text-IsPermanent :
    (text : String) → is_permanent (internal ("seal decrypt failed: " <> text)) ≡ true
seal_text-IsPermanent text =
    let whole = contains_part "Internal Error: seal " "decrypt failed" (": " <> text) in
    let inner = append_assoc "decrypt failed" ": " text in
    let outer = append_assoc "Internal Error: " "seal decrypt failed: " text in
    let all = append_assoc "Internal Error: seal " "decrypt failed: " text in
    let same = sym outer ∙ all ∙ ap (λ rest. "Internal Error: seal " <> rest) inner in
    let found = ap (λ s. contains s "decrypt failed") same ∙ whole in ground (arith, found)

sidecar_failed-IsPermanent :
    (env : Env) (status : ℕ) (body : String)
    → is_permanent (sidecar_failed env "seal decrypt failed: " status body) ≡ true
sidecar_failed-IsPermanent env status body = elim (Option-cases (env.parse_error body)) [
  | inl plain ↦ rw (plain, sidecar_failed) (seal_text-IsPermanent body)
  | inr (e, p) ↦ rw (p, sidecar_failed) (seal_text-IsPermanent e)
]

-- The decryption request of a hit
abbrev pub decrypt_request : Env → Config → AuthInfo → String → Bytes → Request
decrypt_request env config auth private_key encrypted =
    sidecar_request config "/seal/decrypt"
      (Env.seal_decrypt (env.base64_encode encrypted) private_key config.package_id auth.account_id)

-- A blob that was downloaded and whose decryption the sidecar answers with any status outside 200 to
-- 299, whatever the body says: the hit gives no memory, and the caller's rows of that blob are deleted
-- from `vector_entries`, when the database answers.
pub fetch_memory-deletes :
    (env : Env) (config : Config) (auth : AuthInfo) (private_key : String) (hit : SearchHit)
    (w : World) (encrypted : Bytes) (status : ℕ) (body : String)
    → env.read_blob w.calls hit.blob_id ≡ data_read encrypted
    → env.http (suc w.calls) (decrypt_request env config auth private_key encrypted)
      ≡ reply status body
    → is_success status ≡ false
    → env.database (suc (suc w.calls)) ≡ answered
    → ((fetch_memory env config auth private_key hit w).0 ≡ ok none)
      × ((fetch_memory env config auth private_key hit w).1.db.vectors
          ≡ delete_blob hit.blob_id auth.owner w.db.vectors)
unfolding fetch_memory download_blob read_blob seal_decrypt send cleanup_expired_blob
    delete_by_blob_id query
fetch_memory-deletes env config auth private_key hit w encrypted status body read answer bad up =
    let lasting = sidecar_failed-IsPermanent env status body in ground (arith, lasting)
