-- ===== src/Routes/Lifecycle.antt =====
-- A memory from its acceptance to its end: the preparation (src/relayer/src/routes.rs) and the wallet
-- job that it enqueues (src/relayer/src/jobs.rs).
use nautilus_memwal_relayer.Prelude.{
  ℕ, ◌≡◌, refl, ap, ◌∙◌, ◌⊎◌, inl, inr, String, Option, some, List, [], ◌∷◌, ◌++◌, Result, ok, err,
  length, Result-cases, arith,
}
use nautilus_memwal_relayer.Types.{AppError, Bytes, Config, Embedding}
use nautilus_memwal_relayer.Db.Jobs.{failed, row}
use nautilus_memwal_relayer.VectorDb.{get_storage_used}
use nautilus_memwal_relayer.RateLimit.Quota.{check_storage_quota}
use nautilus_memwal_relayer.World.State.{World}
use nautilus_memwal_relayer.World.Env.{Env, answered}
use nautilus_memwal_relayer.World.Action.{Action, resume, ◌>>=◌, ◌>>◌, pure}
use nautilus_memwal_relayer.World.Calls.{query, push_job}
use nautilus_memwal_relayer.World.Keeps.{Keeps}
use nautilus_memwal_relayer.World.Rules.{>>=-eq-ok, >>=-at-ok}
use nautilus_memwal_relayer.Jobs.Types.{
  WalletJob, WalletOperation, upload_and_transfer, PrepareTask,
}
use nautilus_memwal_relayer.Jobs.Remember.{take_key_index}
use nautilus_memwal_relayer.Jobs.Wallet.{execute_wallet_job}
use nautilus_memwal_relayer.Jobs.RowSteps.{HasRow, HasStatus, Ended}
use nautilus_memwal_relayer.Jobs.Settled.{execute_wallet_job-Ended}
use nautilus_memwal_relayer.Routes.Prepare.{
  require_key, enqueue_wallet_job, embed_and_encrypt, prepare, run_prepare_task,
}
use nautilus_memwal_relayer.Routes.BulkFailure.{embed_and_encrypt_lem}
use nautilus_memwal_relayer.Routes.PrepareFailure.{Keeps-prepare, run_prepare_task-failed}

abbrev queue : World → List WalletJob
queue w = w.wallet_queue

Keeps-key : (msg : String) → Keeps queue (require_key msg)
unfolding take_key_index
Keeps-key msg w = ground arith

-- The last job of a queue, and that it is an upload for that row
abbrev pub Enqueued : String → World → World → Type 0
Enqueued id w v =
    (job : WalletJob) × (encrypted_b64 : String) × (vector : Embedding) × (owner : String)
    × (namespace : String) × (package_id : String) × (agent : Option String) × (epochs : ℕ)
    × (v.wallet_queue ≡ w.wallet_queue ++ job ∷ [])
    × (job.operation
        ≡ upload_and_transfer encrypted_b64 vector owner namespace package_id agent (some id)
            epochs)

module _ (env : Env) where
  Keeps-quota :
      (config : Config) (owner : String) (size : ℕ)
      → Keeps queue (check_storage_quota env config.rate_limit owner size)
  unfolding check_storage_quota get_storage_used query
  Keeps-quota config owner size w = ground arith

  enqueue-eq-ok :
      (index : ℕ) (operation : WalletOperation) (w : World) (i : ℕ)
      → (enqueue_wallet_job env index operation w).0 ≡ ok i
      → (enqueue_wallet_job env index operation w).1.wallet_queue
        ≡ w.wallet_queue ++ record { wallet_index = index; operation = operation } ∷ []
  unfolding enqueue_wallet_job push_job
  enqueue-eq-ok index operation w i h = ground (arith, h)

module _ (id : String) (start : World) where
  -- From a state with the queue of `start`, an action that succeeds enqueues.
  abbrev Enqueues : {E A : Type 0} → Action E A → Type 0
  Enqueues {A} m =
      (w : World) (a : A) → queue w ≡ queue start → (m w).0 ≡ ok a → Enqueued id start (m w).1

  Enqueues-resume :
      {E A B : Type 0} (r : Result E A) (f : A → Action E B)
      → ((a : A) → Enqueues (f a))
      → Enqueues (resume r f)
  Enqueues-resume (ok a) f h w b same p = h a w b same p
  Enqueues-resume (err e) f h w b same p = cc

  Enqueues-bind :
      {E A B : Type 0} (m : Action E A) (f : A → Action E B)
      → Keeps queue m
      → ((a : A) → Enqueues (f a))
      → Enqueues (m >>= f)
  Enqueues-bind m f kept h w b same p = Enqueues-resume (m w).0 f h (m w).1 b (kept w ∙ same) p

  Enqueues-push :
      (env : Env) (index : ℕ) (encrypted_b64 : String) (vector : Embedding)
      (owner namespace package_id : String) (agent : Option String) (epochs : ℕ)
      → Enqueues (
          enqueue_wallet_job env index (
            upload_and_transfer encrypted_b64 vector owner namespace package_id agent
              (some id)
              epochs)
          >> pure tt)
  Enqueues-push env index encrypted_b64 vector owner namespace package_id agent epochs w u same h =
      let operation =
        upload_and_transfer encrypted_b64 vector owner namespace package_id agent (some id)
          epochs in
      let push = enqueue_wallet_job env index operation in
      let job : WalletJob = record { wallet_index = index; operation = operation } in
      let (i, p, _) = >>=-eq-ok push (λ _. pure tt) w h in
      let end = ap queue (ap (λ r. r.1) (>>=-at-ok push (λ _. pure {A = Unit {0}} tt) w p)) in
      (
        job,
        encrypted_b64,
        vector,
        owner,
        namespace,
        package_id,
        agent,
        epochs,
        end ∙ enqueue-eq-ok env index operation w i p ∙ ap (λ q. q ++ job ∷ []) same,
        refl,
      )

module _ (env : Env) (config : Config) where
  -- A preparation that succeeds has put the upload at the end of the queue.
  prepare-Enqueued :
      (task : PrepareTask) (w : World) (u : Unit {0})
      → (prepare env config task w).0 ≡ ok u
      → Enqueued task.job_id w (prepare env config task w).1
  unfolding prepare
  prepare-Enqueued task w u h =
      let key = require_key "No Sui keys configured" in
      Enqueues-bind task.job_id w (embed_and_encrypt env config task.text task.owner) _
        (λ v. ap queue (embed_and_encrypt_lem env config task.text task.owner v))
        (λ (made : Embedding × Bytes).
          let push : ℕ → Action AppError (Unit {0}) = λ index.
            enqueue_wallet_job env index (
              upload_and_transfer (env.base64_encode made.1) made.0 task.owner task.namespace
                config.package_id task.agent_public_key (some task.job_id) 50)
            >> pure tt in
          Enqueues-bind task.job_id w
            (check_storage_quota env config.rate_limit task.owner (length made.1))
            (λ _. key >>= push) (Keeps-quota env config task.owner (length made.1))
            (λ _.
              Enqueues-bind task.job_id w key push (Keeps-key "No Sui keys configured") (λ index.
                Enqueues-push task.job_id w env index (env.base64_encode made.1) made.0 task.owner
                  task.namespace config.package_id task.agent_public_key 50)))
        w u refl h

-- While the database answers, the preparation of a memory whose row exists has one of two ends. Its
-- row is failed; or the row is there and a wallet job stands at the end of the queue, after what was
-- in it, which whenever it is executed, from any state that has the row, leaves the row done if it
-- succeeds and failed if it does not.
pub run_prepare_task-Ended :
    (env : Env) (config : Config) (task : PrepareTask) (w : World)
    → ((n : ℕ) → env.database n ≡ answered)
    → HasRow task.job_id w
    → let v : World = (run_prepare_task env config {E = AppError} task w).1 in
      HasStatus task.job_id failed v
      ⊎ (HasRow task.job_id v
          × ((job : WalletJob) × (v.wallet_queue ≡ w.wallet_queue ++ job ∷ [])
              × ((u : World)
                  → HasRow task.job_id u
                  → Ended task.job_id (execute_wallet_job env config job u))))
unfolding run_prepare_task
run_prepare_task-Ended env config task w up p = elim (Result-cases (prepare env config task w).0) [
  | inr (e, failing) ↦
      let (n, last, marked) = run_prepare_task-failed env config task w e p.0 up failing p.1 in
      inl (_, marked, refl)
  | inl (u, prepared) ↦
      let (job, b64, vector, owner, namespace, package_id, agent, epochs, queued, upload) =
        prepare-Enqueued env config task w u prepared in
      rw prepared (
        inr (
          (p.0, ap (row task.job_id) (Keeps-prepare env config task w) ∙ p.1),
          (
            job,
            queued,
            λ v there.
                execute_wallet_job-Ended task.job_id env up config job b64 vector owner namespace
                  package_id agent epochs v upload there,
          ),
        ))
]
