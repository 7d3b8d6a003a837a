-- ===== src/World/Calls.antt =====
-- The calls that leave the process. Each takes one number from `calls`.
use nautilus_memwal_relayer.Prelude.{ℕ, suc, ◌++◌, [], ◌∷◌, String, ◌<>◌, Result, ok, err, map_err}
use nautilus_memwal_relayer.Db.{Database}
use nautilus_memwal_relayer.Redis.{Redis}
use nautilus_memwal_relayer.Sui.Json.{Json}
use nautilus_memwal_relayer.Types.{AppError, internal, Bytes}
use nautilus_memwal_relayer.Jobs.Types.{WalletJob, PrepareTask}
use nautilus_memwal_relayer.World.State.{World}
use nautilus_memwal_relayer.World.Env.{
  Env, Outcome, answered, refused, lost, Request, Reply, Download, RpcRequest, RpcReply, Forwarded,
  RpcResponse,
}
use nautilus_memwal_relayer.World.Action.{Action}

-- A statement's own result, and what the connection makes of it.
abbrev pub settle : {A : Type 0} → Outcome → Result String A → Result String A
settle answered r = r
settle (refused e) r = err e
settle (lost e) r = err e

abbrev pub settle_state : {S : Type 0} → Outcome → S → S → S
settle_state answered before after = after
settle_state (refused e) before after = before
settle_state (lost e) before after = after

-- A number for a call that changes nothing here.
abbrev pub spend : World → World
spend w = record w { calls = suc w.calls }

module _ (env : Env) where
  -- `sqlx::query(…).execute(pool).await`, with `prefix` in front of the error's text. The body is
  -- given `NOW()`.
  unfoldable pub query :
      {A : Type 0} → String → (ℕ → Database → Result String A × Database) → Action AppError A
  query prefix body w =
      let outcome = env.database w.calls in
      let r = body (env.clock w.calls) w.db in
      (
        map_err (λ e. internal (prefix <> e)) (settle outcome r.0),
        record (spend w) { db = settle_state outcome w.db r.1 },
      )

  unfoldable pub redis_call : {A : Type 0} → (ℕ → Redis → A × Redis) → Action String A
  redis_call body w =
      let outcome = env.redis w.calls in
      let r = body (env.clock w.calls) w.redis in
      (settle outcome (ok r.0), record (spend w) { redis = settle_state outcome w.redis r.1 })

  -- `storage.push(job)`
  unfoldable pub push_job : WalletJob → Action String Unit
  push_job job w =
      let outcome = env.storage w.calls in
      (
        settle outcome (ok tt),
        record (spend w) {
          wallet_queue = settle_state outcome w.wallet_queue (w.wallet_queue ++ job ∷ []);
        },
      )

  unfoldable pub send : {E : Type 0} → Request → Action E Reply
  send request w = (ok (env.http w.calls request), spend w)

  unfoldable pub read_blob : {E : Type 0} → String → Action E Download
  read_blob blob_id w = (ok (env.read_blob w.calls blob_id), spend w)

  unfoldable pub rpc : {E : Type 0} → String → RpcRequest → Action E (RpcReply Json)
  rpc url request w = (ok (env.rpc w.calls url request), spend w)

  unfoldable pub rpc_object : {E : Type 0} → String → String → Action E (RpcReply RpcResponse)
  rpc_object url object_id w = (
    ok (env.rpc_object w.calls url object_id),
    record (spend w) { object_calls = (w.calls, url, object_id) ∷ w.object_calls },
  )

  unfoldable pub new_uuid : {E : Type 0} → Action E String
  new_uuid w = (ok (env.new_uuid w.calls), spend w)

  unfoldable pub forward : {E : Type 0} → String → Bytes → Action E Forwarded
  forward url body w = (ok (env.forward w.calls url body), spend w)

  -- `Utc::now()`, in milliseconds
  unfoldable pub now : {E : Type 0} → Action E ℕ
  now w = (ok (env.clock w.calls), spend w)

-- `tokio::spawn`
unfoldable pub spawn : {E : Type 0} → PrepareTask → Action E Unit
spawn task w = (ok tt, record w { spawned = w.spawned ++ task ∷ [] })
