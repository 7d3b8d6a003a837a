-- ===== src/Tests/StoreRuns.antt =====
-- Runs of src/relayer/src/db.rs, jobs.rs and routes.rs.
use mathlib.Core.List.{Memᴰ}
use nautilus_memwal_relayer.Prelude.{
  ◌≡◌, ◌≤◌, ◌⊎◌, refl, true, [], ◌∷◌, some, none, ok, length, All, if◌then◌else◌, str_eq,
}
use nautilus_memwal_relayer.Db.Vectors.{search, upsert, blobs_of}
use nautilus_memwal_relayer.Db.VectorRules.{entry, entry-upsert, others}
use nautilus_memwal_relayer.Db.Search.{search-IsScoped, search-nearest, ComesFrom, hit_of}
use nautilus_memwal_relayer.Db.Sorted.{IsSorted}
use nautilus_memwal_relayer.Db.Jobs.{row}
use nautilus_memwal_relayer.World.Calls.{query, send, read_blob, new_uuid}
use nautilus_memwal_relayer.VectorDb.{insert_vector, search_similar, get_blobs_by_namespace}
use nautilus_memwal_relayer.Clients.Walrus.{upload_blob, download_blob, query_blobs_by_owner}
use nautilus_memwal_relayer.Clients.Seal.{seal_decrypt}
use nautilus_memwal_relayer.Clients.Embeddings.{generate_embedding}
use nautilus_memwal_relayer.Jobs.Wallet.{
  execute_upload_and_transfer, mark_job, warm_blob_cache_after_upload,
}
use nautilus_memwal_relayer.Jobs.Stored.{IsStored, execute_upload_and_transfer-IsStored}
use nautilus_memwal_relayer.Routes.Recall.{RecallRequest, RecallResponse, recall}
use nautilus_memwal_relayer.Routes.RecallScope.{OfRow, recall-IsScoped}
use nautilus_memwal_relayer.Routes.RecallRules.{recall-others}
use nautilus_memwal_relayer.Routes.Remember.{RememberStatus, remember_status}
use nautilus_memwal_relayer.Routes.Status.{IsShown, remember_status-IsShown, remember_status-hidden}
use nautilus_memwal_relayer.Db.Jobs.{pending}
use nautilus_memwal_relayer.Routes.Restore.{RestoreRequest, RestoreResponse, restore}
use nautilus_memwal_relayer.Routes.RestoreCounts.{IsCounted, restore-IsCounted}
use nautilus_memwal_relayer.Prelude.{◌++◌}
use nautilus_memwal_relayer.Jobs.Types.{upload_and_transfer, BulkRememberJob}
use nautilus_memwal_relayer.Jobs.Remember.{execute_bulk_remember}
use nautilus_memwal_relayer.Jobs.FanOut.{execute_bulk_remember-queue}
use nautilus_memwal_relayer.Tests.Sample.{env, config, auth, world, empty_world, rows, entry_of}

search-IsScoped_example :
    let hits = search env.distance (λ r. true) [] "alice" "notes" 5 rows in
    (length hits ≤ 5) × IsSorted hits × All (ComesFrom env.distance [] "alice" "notes" rows) hits
search-IsScoped_example = search-IsScoped env.distance (λ r. true) [] "alice" "notes" 5 rows

search-nearest_example :
    let hits = search env.distance (λ r. true) [] "alice" "notes" 5 rows in
    Memᴰ (hit_of env.distance [] (entry_of "v1" "alice")) hits
    ⊎ ((length hits ≡ 5) × All (λ h. h.distance ≤ 5) hits)
search-nearest_example =
    search-nearest env.distance (λ r. true) [] "alice" "notes" 5 rows (entry_of "v1" "alice") refl
      refl refl (Memᴰ.head refl)

entry-upsert_example :
    entry "v1" (upsert (entry_of "v2" "carol") rows)
    ≡ (if str_eq "v2" "v1" then some (entry_of "v2" "carol") else entry "v1" rows)
entry-upsert_example = entry-upsert "v1" (entry_of "v2" "carol") rows

job_succeeds :
    (execute_upload_and_transfer env config 0 "AQI="
      (4 ∷ [])
      "alice"
      "notes"
      "0xp"
      none
      (some "j1")
      50
      world).0
    ≡ ok tt
unfolding execute_upload_and_transfer mark_job query upload_blob send warm_blob_cache_after_upload
    insert_vector
job_succeeds = refl

execute_upload_and_transfer-IsStored_example :
    IsStored env "j1" "AQI="
      (4 ∷ [])
      "alice"
      "notes"
      (execute_upload_and_transfer env config 0 "AQI="
        (4 ∷ [])
        "alice"
        "notes"
        "0xp"
        none
        (some "j1")
        50
        world).1
execute_upload_and_transfer-IsStored_example =
    execute_upload_and_transfer-IsStored env config 0 50 "AQI=" (4 ∷ []) "alice" "notes" "0xp" "j1"
      none world job_succeeds

abbrev recall_request : RecallRequest
recall_request = record { query = "q"; limit = 5; namespace = "notes" }

abbrev recall_response : RecallResponse
recall_response = record {
  results = record { blob_id = "blob-1"; text = "hello"; distance = 5 } ∷ [];
  total = 1;
}

recall_succeeds : (recall env config auth recall_request world).0 ≡ ok recall_response
unfolding recall generate_embedding send search_similar query search download_blob read_blob
    seal_decrypt
recall_succeeds = refl

recall-IsScoped_example :
    All (OfRow "alice" "notes" rows) recall_response.results
    × (recall_response.total ≤ 5)
    × (length recall_response.results ≡ recall_response.total)
recall-IsScoped_example =
    recall-IsScoped env config auth recall_request world recall_response recall_succeeds

recall-others_example :
    others "alice" (recall env config auth recall_request world).1.db.vectors ≡ others "alice" rows
recall-others_example = recall-others env config auth recall_request world

abbrev shown_status : RememberStatus
shown_status = record {
  job_id = "j1";
  status = pending;
  owner = "alice";
  namespace = "notes";
  blob_id = none;
  error = none;
}

status_shown : (remember_status env auth "j1" world).0 ≡ ok shown_status
unfolding remember_status query row
status_shown = refl

remember_status-IsShown_example : IsShown "alice" (row "j1" world.db.jobs) shown_status
remember_status-IsShown_example =
    remember_status-IsShown env auth "j1" world shown_status status_shown

remember_status-hidden_example :
    (remember_status env auth "j2" world).0 ≡ (remember_status env auth "j2" empty_world).0
unfolding row
remember_status-hidden_example = remember_status-hidden env auth "j2" world empty_world refl refl tt

abbrev restore_request : RestoreRequest
restore_request = record { namespace = "notes"; limit = 5 }

abbrev restore_response : RestoreResponse
restore_response = record {
  restored = 1;
  skipped = 1;
  total = 2;
  namespace = "notes";
  owner = "alice";
}

restore_succeeds : (restore env auth config restore_request world).0 ≡ ok restore_response
unfolding restore query_blobs_by_owner send get_blobs_by_namespace query blobs_of download_blob
    read_blob seal_decrypt generate_embedding new_uuid insert_vector
restore_succeeds = refl

restore-IsCounted_example : IsCounted auth restore_request restore_response
restore-IsCounted_example =
    restore-IsCounted env auth config restore_request world restore_response restore_succeeds

abbrev bulk_job : BulkRememberJob
bulk_job = record {
  owner = "alice";
  package_id = "0xp";
  agent_public_key = none;
  items =
      record {
        job_id = "j1";
        encrypted_b64 = "AQI=";
        vector = 3 ∷ [];
        namespace = "notes";
        wallet_index = 0;
      }
      ∷ record {
        job_id = "j2";
        encrypted_b64 = "AQI=";
        vector = 4 ∷ [];
        namespace = "plans";
        wallet_index = 1;
      }
      ∷ [];
  epochs = 50;
}

execute_bulk_remember-queue_example :
    ((execute_bulk_remember env bulk_job world).0 ≡ ok tt)
    × ((execute_bulk_remember env bulk_job world).1.wallet_queue
        ≡ []
          ++ (record {
            wallet_index = 0;
            operation =
                upload_and_transfer "AQI=" (3 ∷ []) "alice" "notes" "0xp" none (some "j1") 50;
          }
              ∷ record {
                wallet_index = 1;
                operation =
                    upload_and_transfer "AQI=" (4 ∷ []) "alice" "plans" "0xp" none (some "j2") 50;
              }
              ∷ []))
execute_bulk_remember-queue_example = execute_bulk_remember-queue env bulk_job world (λ n. refl)
