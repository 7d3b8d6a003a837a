-- ===== src/Tests/LifeRuns.antt =====
-- Runs of a memory from its acceptance to its place in a search (src/relayer/src/routes.rs, jobs.rs).
use mathlib.Core.List.{Memᴰ}
use nautilus_memwal_relayer.Prelude.{
  ◌≤◌, ◌≡◌, refl, ◌⊎◌, Result, some, none, List, [], ◌∷◌, ◌++◌, ok, length, All,
}
use nautilus_memwal_relayer.Types.{AppError, SearchHit}
use nautilus_memwal_relayer.Db.Vectors.{VectorEntry, search, upsert}
use nautilus_memwal_relayer.Db.VectorRules.{entry}
use nautilus_memwal_relayer.Db.Jobs.{new_row, failed, row}
use nautilus_memwal_relayer.VectorDb.{search_similar, insert_vector}
use nautilus_memwal_relayer.World.State.{World}
use nautilus_memwal_relayer.World.Calls.{query, send}
use nautilus_memwal_relayer.Clients.Walrus.{upload_blob}
use nautilus_memwal_relayer.Jobs.Errors.{WalletJobError}
use nautilus_memwal_relayer.Jobs.Types.{WalletJob, PrepareTask}
use nautilus_memwal_relayer.Jobs.Wallet.{
  execute_upload_and_transfer, execute_wallet_job, mark_job, warm_blob_cache_after_upload,
}
use nautilus_memwal_relayer.Jobs.RowSteps.{HasRow, HasStatus, Ended}
use nautilus_memwal_relayer.Jobs.Found.{execute_upload_and_transfer-search_similar}
use nautilus_memwal_relayer.Routes.Prepare.{run_prepare_task}
use nautilus_memwal_relayer.Routes.Lifecycle.{run_prepare_task-Ended}
use nautilus_memwal_relayer.Tests.Sample.{env, config, world}

abbrev task : PrepareTask
task = record {
  job_id = "j1";
  text = "text";
  owner = "alice";
  namespace = "notes";
  agent_public_key = none;
}

row_found : row "j1" world.db.jobs ≡ some (new_row 1 "j1" "alice" "notes")
unfolding row
row_found = refl

run_prepare_task-Ended_example :
    let v : World = (run_prepare_task env config {E = AppError} task world).1 in
    HasStatus "j1" failed v
    ⊎ (HasRow "j1" v
        × ((job : WalletJob) × (v.wallet_queue ≡ world.wallet_queue ++ job ∷ [])
            × ((u : World) → HasRow "j1" u → Ended "j1" (execute_wallet_job env config job u))))
run_prepare_task-Ended_example =
    run_prepare_task-Ended env config task world (λ n. refl)
      (new_row 1 "j1" "alice" "notes", row_found)

abbrev made : Result {0, 0} WalletJobError Unit × World
made =
    execute_upload_and_transfer env config 0 "AQI=" (4 ∷ []) "alice" "notes" "0xp" none (some "j1")
      50 world

made_succeeds : made.0 ≡ ok tt
unfolding execute_upload_and_transfer mark_job query upload_blob send warm_blob_cache_after_upload
    insert_vector
made_succeeds = refl

abbrev hits : List SearchHit
hits =
    record { blob_id = "blob-1"; distance = 5 } ∷ record { blob_id = "blob-9"; distance = 5 } ∷ []

search_succeeds : (search_similar env (8 ∷ []) "alice" "notes" 5 made.1).0 ≡ ok hits
unfolding execute_upload_and_transfer mark_job query upload_blob send warm_blob_cache_after_upload
    insert_vector search_similar search upsert
search_succeeds = refl

memory_stored : (e : VectorEntry) × (entry "j1" made.1.db.vectors ≡ some e)
unfolding execute_upload_and_transfer mark_job query upload_blob send warm_blob_cache_after_upload
    insert_vector upsert entry
memory_stored = (_, refl)

execute_upload_and_transfer-search_similar_example :
    (memory_stored.0.embedding ≡ 4 ∷ [])
    × (Memᴰ (record { blob_id = memory_stored.0.blob_id; distance = 5 }) hits
        ⊎ ((length hits ≡ 5) × All (λ (h : SearchHit). h.distance ≤ 5) hits))
execute_upload_and_transfer-search_similar_example =
    execute_upload_and_transfer-search_similar env config 0 50 "AQI=" (4 ∷ []) "alice" "notes" "0xp"
      "j1" none world (8 ∷ []) 5 hits memory_stored.0 made_succeeds memory_stored.1 refl
      search_succeeds
