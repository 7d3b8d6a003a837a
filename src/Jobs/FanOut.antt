-- ===== src/Jobs/FanOut.antt =====
-- The wallet jobs that `execute_bulk_remember` (src/relayer/src/jobs.rs) enqueues.
use mathlib.Core.List.{append-nil, append_assoc}
use nautilus_memwal_relayer.Prelude.{ℕ, ◌≡◌, refl, sym, List, [], ◌∷◌, ◌++◌, map, some, ok, arith}
use nautilus_memwal_relayer.World.State.{World}
use nautilus_memwal_relayer.World.Env.{Env, answered}
use nautilus_memwal_relayer.World.Calls.{push_job}
use nautilus_memwal_relayer.Jobs.Types.{upload_and_transfer, BulkRememberJob, BulkRememberItem}
use nautilus_memwal_relayer.Jobs.Remember.{item_job, push_items, execute_bulk_remember}

module _ (env : Env) (job : BulkRememberJob) (answers : (n : ℕ) → env.storage n ≡ answered) where
  push_items-queue :
      (items : List BulkRememberItem) (w : World)
      → ((push_items env job items w).0 ≡ ok tt)
        × ((push_items env job items w).1.wallet_queue ≡ w.wallet_queue ++ map (item_job job) items)
  unfolding push_items push_job
  push_items-queue [] w = (refl, sym (append-nil w.wallet_queue))
  push_items-queue (item ∷ items) w =
      let w' : World = (push_job env (item_job job item) w).1 in
      let (passed, queue) = push_items-queue items w' in
      let first = append_assoc w.wallet_queue (item_job job item ∷ []) (map (item_job job) items) in
      let up = answers w.calls in (ground (arith, up, passed), ground (arith, up, queue, first))

-- While the job storage answers, a bulk job succeeds, and has added to the queue one wallet job for
-- each item, in the items' order, with the item's ciphertext, vector, namespace, wallet index and id,
-- and the bulk job's owner, package, delegate key and epochs.
pub execute_bulk_remember-queue :
    (env : Env) (job : BulkRememberJob) (w : World)
    → ((n : ℕ) → env.storage n ≡ answered)
    → ((execute_bulk_remember env job w).0 ≡ ok tt)
      × ((execute_bulk_remember env job w).1.wallet_queue
          ≡ w.wallet_queue
            ++ map
                (λ (item : BulkRememberItem). record {
                  wallet_index = item.wallet_index;
                  operation =
                      upload_and_transfer item.encrypted_b64 item.vector job.owner item.namespace
                        job.package_id job.agent_public_key
                        (some item.job_id)
                        job.epochs;
                })
                job.items)
unfolding execute_bulk_remember
execute_bulk_remember-queue env job w answers = push_items-queue env job answers job.items w
