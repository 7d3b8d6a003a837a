-- ===== src/Routes/PrepareFailure.antt =====
-- What a failing preparation leaves (src/relayer/src/routes.rs, `spawn_prepare_remember_job`).
use nautilus_memwal_relayer.Prelude.{ℕ, suc, ◌≡◌, refl, ap, ◌∙◌, String, some, err, length, arith}
use nautilus_memwal_relayer.Types.{AppError, error_text, Bytes, Config, Embedding}
use nautilus_memwal_relayer.Db.Jobs.{RememberRow, failed, row}
use nautilus_memwal_relayer.Db.JobRules.{row-set_failed}
use nautilus_memwal_relayer.VectorDb.{get_storage_used}
use nautilus_memwal_relayer.RateLimit.Quota.{check_storage_quota}
use nautilus_memwal_relayer.World.State.{World}
use nautilus_memwal_relayer.World.Env.{Env, answered}
use nautilus_memwal_relayer.World.Action.{Action, ◌>>=◌, ◌>>◌, pure}
use nautilus_memwal_relayer.World.Calls.{query, push_job}
use nautilus_memwal_relayer.World.Keeps.{Keeps, Keeps-bind}
use nautilus_memwal_relayer.Jobs.Types.{WalletOperation, upload_and_transfer, PrepareTask}
use nautilus_memwal_relayer.Jobs.Wallet.{mark_job}
use nautilus_memwal_relayer.Routes.Prepare.{
  require_key, enqueue_wallet_job, mark_remember_job_failed, embed_and_encrypt, prepare,
  run_prepare_task,
}
use nautilus_memwal_relayer.Routes.BulkFailure.{jobs, Keeps-require_key, Keeps-embed_and_encrypt}

module _ (env : Env) (config : Config) where
  Keeps-quota :
      (owner : String) (size : ℕ)
      → Keeps jobs (check_storage_quota env config.rate_limit owner size)
  unfolding check_storage_quota get_storage_used query
  Keeps-quota owner size w = ground arith

  Keeps-enqueue :
      (index : ℕ) (operation : WalletOperation)
      → Keeps jobs (enqueue_wallet_job env index operation)
  unfolding enqueue_wallet_job push_job
  Keeps-enqueue index operation w = ground arith

  pub Keeps-prepare : (task : PrepareTask) → Keeps jobs (prepare env config task)
  unfolding prepare
  Keeps-prepare task =
      Keeps-bind jobs (embed_and_encrypt env config task.text task.owner) _
        (Keeps-embed_and_encrypt env config task.text task.owner)
        (λ (made : Embedding × Bytes).
          let push : ℕ → Action AppError (Unit {0}) = λ index.
            enqueue_wallet_job env index (
              upload_and_transfer (env.base64_encode made.1) made.0 task.owner task.namespace
                config.package_id task.agent_public_key (some task.job_id) 50)
            >> pure tt in
          let key = require_key "No Sui keys configured" in
          Keeps-bind jobs (check_storage_quota env config.rate_limit task.owner (length made.1))
            (λ _. key >>= push) (Keeps-quota task.owner (length made.1))
            (λ _. Keeps-bind jobs key push (Keeps-require_key "No Sui keys configured") (λ index.
              let operation =
                upload_and_transfer (env.base64_encode made.1) made.0 task.owner task.namespace
                  config.package_id task.agent_public_key (some task.job_id) 50 in
              Keeps-bind jobs (enqueue_wallet_job env index operation) (λ _. pure tt)
                (Keeps-enqueue index operation) (λ _ w. refl))))

-- A preparation that fails while the database answers: the row of the task's id, if there is one, is
-- then failed, with the error's text and the time of the last call, which marks it, and keeps its id,
-- owner, namespace and blob.
pub run_prepare_task-failed :
    (env : Env) (config : Config) (task : PrepareTask) (w : World) (e : AppError) (r : RememberRow)
    → ((n : ℕ) → env.database n ≡ answered)
    → (prepare env config task w).0 ≡ err e
    → row task.job_id w.db.jobs ≡ some r
    → let v : World = (run_prepare_task env config {E = AppError} task w).1 in
      (n : ℕ) × (v.calls ≡ suc n)
      × (row task.job_id v.db.jobs
          ≡ some (record {
            id = r.id;
            owner = r.owner;
            namespace = r.namespace;
            status = failed;
            blob_id = r.blob_id;
            error_msg = some (error_text e);
            updated_at = env.clock n;
          }))
unfolding run_prepare_task mark_remember_job_failed mark_job query
run_prepare_task-failed env config task w e r up h here =
    let v : World = (prepare env config task w).1 in
    let kept = Keeps-prepare env config task w in
    (
      v.calls,
      rw h refl,
      rw (h, up v.calls)
          (row-set_failed task.job_id (error_text e) (env.clock v.calls) v.db.jobs r
            (ap (row task.job_id) kept ∙ here)),
    )
