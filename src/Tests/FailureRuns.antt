-- ===== src/Tests/FailureRuns.antt =====
-- Runs of src/relayer/src/routes.rs with services that answer 503.
use nautilus_memwal_relayer.Prelude.{ℕ, suc, ◌≡◌, refl, [], ◌∷◌, some, none, ok, err}
use nautilus_memwal_relayer.Types.{SearchHit, AppError, internal}
use nautilus_memwal_relayer.Db.Vectors.{delete_blob}
use nautilus_memwal_relayer.Db.Jobs.{RememberRow, row, new_row, failed, fail_stale}
use nautilus_memwal_relayer.World.State.{World}
use nautilus_memwal_relayer.World.Env.{Env, reply}
use nautilus_memwal_relayer.World.Calls.{send}
use nautilus_memwal_relayer.Jobs.Types.{PrepareTask}
use nautilus_memwal_relayer.Jobs.Remember.{take_key_index}
use nautilus_memwal_relayer.Types.KeyPool.{next_index}
use nautilus_memwal_relayer.Clients.Embeddings.{generate_embedding}
use nautilus_memwal_relayer.Clients.Seal.{seal_encrypt}
use nautilus_memwal_relayer.Routes.Bulk.{RememberBulkItem, remember_item}
use nautilus_memwal_relayer.Routes.Prepare.{embed_and_encrypt, prepare, run_prepare_task}
use nautilus_memwal_relayer.Routes.Recall.{fetch_memory}
use nautilus_memwal_relayer.Routes.RecallCleanup.{fetch_memory-deletes}
use nautilus_memwal_relayer.Routes.BulkFailure.{remember_item-pending}
use nautilus_memwal_relayer.Routes.PrepareFailure.{run_prepare_task-failed}
use nautilus_memwal_relayer.Tests.Sample.{env, config, auth, world, rows}

abbrev busy : Env
busy = record env { http = λ n request. reply 503 "busy" }

abbrev hit : SearchHit
hit = record { blob_id = "blob-1"; distance = 5 }

fetch_memory-deletes_example :
    ((fetch_memory busy config auth "server" hit world).0 ≡ ok none)
    × ((fetch_memory busy config auth "server" hit world).1.db.vectors
        ≡ delete_blob "blob-1" "alice" rows)
fetch_memory-deletes_example =
    fetch_memory-deletes busy config auth "server" hit world (1 ∷ 2 ∷ []) 503 "busy" refl refl refl
      refl

abbrev item : RememberBulkItem
item = record { text = "text"; namespace = "notes" }

abbrev embedding_error : AppError
embedding_error = internal "Embedding API error (): busy"

abbrev first_row : RememberRow
first_row = new_row 1 "j1" "alice" "notes"

row_found : row "j1" world.db.jobs ≡ some first_row
unfolding row
row_found = refl

item_fails : (remember_item busy config "alice" ("j1", item) world).0 ≡ err embedding_error
unfolding remember_item take_key_index next_index embed_and_encrypt generate_embedding seal_encrypt
    send
item_fails = refl

remember_item-pending_example :
    row "j1"
      (fail_stale 5000000 60 (remember_item busy config "alice" ("j1", item) world).1.db.jobs)
    ≡ some first_row
remember_item-pending_example =
    remember_item-pending busy config "alice" "j1" item world embedding_error first_row 5000000 60
      (λ n. refl) item_fails row_found refl

abbrev task : PrepareTask
task = record {
  job_id = "j1";
  text = "text";
  owner = "alice";
  namespace = "notes";
  agent_public_key = none;
}

task_fails : (prepare busy config task world).0 ≡ err embedding_error
unfolding prepare embed_and_encrypt generate_embedding seal_encrypt send
task_fails = refl

run_prepare_task-failed_example :
    let v : World = (run_prepare_task busy config {E = AppError} task world).1 in
    (n : ℕ) × (v.calls ≡ suc n)
    × (row "j1" v.db.jobs
        ≡ some (record {
          id = "j1";
          owner = "alice";
          namespace = "notes";
          status = failed;
          blob_id = none;
          error_msg = some "Internal Error: Embedding API error (): busy";
          updated_at = busy.clock n;
        }))
run_prepare_task-failed_example =
    run_prepare_task-failed busy config task world embedding_error first_row (λ n. refl) task_fails
      row_found
