-- ===== src/Clients/Walrus.antt =====
-- src/relayer/src/walrus.rs: uploads and queries by the sidecar, downloads from the aggregator.
use nautilus_memwal_relayer.Prelude.{
  ℕ, String, ◌<>◌, Bool, false, ◌&&◌, ◌||◌, Option, none, some, List, Result, ok, err, is_none,
  str_eq, contains, if◌then◌else◌,
}
use nautilus_memwal_relayer.Types.{AppError, internal, blob_not_found, Bytes, Config}
use nautilus_memwal_relayer.World.Env
use nautilus_memwal_relayer.World.Env.{
  Env, OnChainBlob, UploadResponse, Download, data_read, read_failed, read_timed_out,
}
use nautilus_memwal_relayer.World.Action.{Action, ◌>>=◌, lift}
use nautilus_memwal_relayer.World.Calls.{send, read_blob}
use nautilus_memwal_relayer.Clients.Replies.{
  receive, sidecar_failed, json_body, sidecar_request, internal_at,
}

pub record UploadResult : Type 0 where
  pub blob_id : String
  pub object_id : Option String

abbrev transfer_failed : Option String → Bool
transfer_failed none = false
transfer_failed (some status) = str_eq status "failed"

-- The checks on a parsed upload response
abbrev pub check_upload : Bool → UploadResponse → Result AppError UploadResult
check_upload defer_transfer result =
    if transfer_failed result.transfer_status
    then err (internal "walrus upload completed but metadata/transfer failed")
    else if defer_transfer && is_none result.object_id
    then err (internal "walrus deferred upload returned no object_id")
    else ok (record { blob_id = result.blob_id; object_id = result.object_id })

-- `Ok`, a read error that is or is not a 404, or the timeout
abbrev pub after_download : Env → String → Download → Result AppError Bytes
after_download env blob_id (data_read bytes) = ok bytes
after_download env blob_id (read_failed e) =
    if contains e "404"
      || contains (env.to_lowercase e) "not found"
      || contains (env.to_lowercase e) "blob not found"
    then err (blob_not_found ("Blob " <> blob_id <> " expired or not found: " <> e))
    else err (internal ("Walrus download failed: " <> e))
after_download env blob_id read_timed_out =
    err (internal ("Walrus download timed out after 10s for blob " <> blob_id))

module _ (env : Env) (config : Config) where
  unfoldable pub upload_blob_inner :
      Bytes → ℕ → String → ℕ → String → String → Option String → Bool → Action AppError UploadResult
  upload_blob_inner data_bytes epochs owner key_index namespace package_id agent_id defer_transfer =
      do
        answer ← send env (
            sidecar_request config "/walrus/upload" (
              Env.walrus_upload (env.base64_encode data_bytes) key_index owner namespace package_id
                epochs defer_transfer agent_id))
        result ← lift (
            receive (internal_at "Sidecar walrus/upload request failed: ")
              (sidecar_failed env "walrus upload failed: ")
              (json_body "Failed to parse walrus/upload response: " env.parse_upload) answer)
        lift (check_upload defer_transfer result)

  unfoldable pub upload_blob :
      Bytes → ℕ → String → ℕ → String → String → Option String → Action AppError UploadResult
  unfolding upload_blob_inner
  upload_blob data_bytes epochs owner key_index namespace package_id agent_id =
      upload_blob_inner data_bytes epochs owner key_index namespace package_id agent_id false

  unfoldable pub set_metadata_batch :
      ℕ → String → String → Option String → List (String × String) → Action AppError ℕ
  set_metadata_batch key_index owner package_id agent_id blobs = do
    answer ← send env (
        sidecar_request config "/walrus/set-metadata-batch"
          (Env.set_metadata blobs owner package_id agent_id key_index))
    lift (
        receive (internal_at "Sidecar walrus/set-metadata-batch request failed: ")
          (sidecar_failed env "walrus set-metadata-batch failed: ")
          (json_body "Failed to parse walrus/set-metadata-batch response: " env.parse_transferred)
          answer)

  unfoldable pub query_blobs_by_owner :
      String → Option String → Option String → Action AppError (List OnChainBlob)
  query_blobs_by_owner owner namespace package_id = do
    answer ←
        send env (
          sidecar_request config "/walrus/query-blobs" (Env.query_blobs owner namespace package_id))
    lift (
        receive (internal_at "Sidecar walrus/query-blobs failed: ")
          (λ status body. internal ("walrus query-blobs failed: " <> body))
          (json_body "Failed to parse query-blobs response: " env.parse_blobs) answer)

-- With its timeout of 15 seconds, which `read_timed_out` stands for.
unfoldable pub download_blob : Env → String → Action AppError Bytes
download_blob env blob_id = do
  answer ← read_blob env blob_id
  lift (after_download env blob_id answer)
