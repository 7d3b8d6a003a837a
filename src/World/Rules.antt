-- ===== src/World/Rules.antt =====
-- Rules for the actions of World/Action: what a successful block says of its parts, and the calls
-- under a connection that answers.
use mathlib.Core.List.{append_assoc}
use nautilus_memwal_relayer.Prelude.{
  ℕ, ◌≤◌, ◌≡◌, refl, sym, ap, [], ◌∷◌, ◌++◌, ◌∙◌, Result, ok, err, String, List, arith,
}
use nautilus_memwal_relayer.Types.KeyPool.{KeyPool}
use nautilus_memwal_relayer.Db.{Database}
use nautilus_memwal_relayer.Db.Vectors.{VectorEntry}
use nautilus_memwal_relayer.Db.Jobs.{RememberRow}
use nautilus_memwal_relayer.Jobs.Types.{WalletJob, PrepareTask}
use nautilus_memwal_relayer.World.State.{World}
use nautilus_memwal_relayer.World.Env.{Env, RpcRequest, Outcome, answered, refused, lost}
use nautilus_memwal_relayer.World.Action.{Action, resume, ◌>>=◌}
use nautilus_memwal_relayer.World.Calls.{query, settle_state, rpc, rpc_object}

module _ {E A B : Type 0} where
  resume-eq-ok :
      (r : Result E A) (f : A → Action E B) (w : World) {b : B}
      → (resume r f w).0 ≡ ok b
      → (a : A) × (r ≡ ok a) × ((f a w).0 ≡ ok b)
  resume-eq-ok (ok a) f w h = (a, refl, h)
  resume-eq-ok (err e) f w h = cc

  -- A block that succeeds: so did its first action, and the rest from where that left the state.
  pub >>=-eq-ok :
      (m : Action E A) (f : A → Action E B) (w : World) {b : B}
      → ((m >>= f) w).0 ≡ ok b
      → (a : A) × ((m w).0 ≡ ok a) × ((f a (m w).1).0 ≡ ok b)
  >>=-eq-ok m f w h = resume-eq-ok (m w).0 f (m w).1 h

-- A block whose first action succeeds goes on with the rest.
pub >>=-at-ok :
    {E A B : Type 0} (m : Action E A) (f : A → Action E B) (w : World) {a : A}
    → (m w).0 ≡ ok a
    → (m >>= f) w ≡ f a (m w).1
>>=-at-ok m f w p = ap (λ r. resume r f (m w).1) p

-- The tables but the cache of delegate keys
pub record Tables : Type 0 where
  pub vectors : List VectorEntry
  pub jobs : List RememberRow
  pub accounts : List (String × String)

abbrev pub tables : Database → Tables
tables db = record { vectors = db.vectors; jobs = db.jobs; accounts = db.accounts }

-- All that the process keeps but Redis, that cache and the number of calls
pub record Stores : Type 0 where
  pub tables : Tables
  pub key_pool : KeyPool
  pub wallet_queue : List WalletJob
  pub spawned : List PrepareTask

abbrev pub stores : World → Stores
stores w = record {
  tables = tables w.db;
  key_pool = w.key_pool;
  wallet_queue = w.wallet_queue;
  spawned = w.spawned;
}

-- From `w` to `v` call numbers were only spent, and Redis and the stores were not touched.
pub record Quietly (w v : World) : Type 0 where
  pub calls : w.calls ≤ v.calls
  pub redis : v.redis ≡ w.redis
  pub kept : stores v ≡ stores w
  pub fresh : List (ℕ × String × String)
  pub traced : v.object_calls ≡ fresh ++ w.object_calls

pub Quietly-refl : (w : World) → Quietly w w
Quietly-refl w = record {
  calls = omega arith;
  redis = refl;
  kept = refl;
  fresh = [];
  traced = refl;
}

pub Quietly-trans : {u v w : World} → Quietly u v → Quietly v w → Quietly u w
Quietly-trans p q = record {
  calls = omega arith;
  redis = q.redis ∙ p.redis;
  kept = q.kept ∙ p.kept;
  fresh = q.fresh ++ p.fresh;
  traced = q.traced ∙ ap (λ l. q.fresh ++ l) p.traced ∙ sym (append_assoc q.fresh p.fresh _);
}

abbrev pub IsQuiet : {E A : Type 0} → Action E A → Type 0
IsQuiet m = (w : World) → Quietly w (m w).1

pub IsQuiet-resume :
    {E A B : Type 0} (r : Result E A) (f : A → Action E B)
    → ((a : A) → IsQuiet (f a))
    → IsQuiet (resume r f)
IsQuiet-resume (ok a) f h w = h a w
IsQuiet-resume (err e) f h w = Quietly-refl w

pub IsQuiet-bind :
    {E A B : Type 0} (m : Action E A) (f : A → Action E B)
    → IsQuiet m
    → ((a : A) → IsQuiet (f a))
    → IsQuiet (m >>= f)
IsQuiet-bind m f hm hf w = Quietly-trans (hm w) (IsQuiet-resume (m w).0 f hf (m w).1)

settled_tables :
    (outcome : Outcome) (before after : Database)
    → tables after ≡ tables before
    → tables (settle_state outcome before after) ≡ tables before
settled_tables answered before after h = h
settled_tables (refused e) before after h = refl
settled_tables (lost e) before after h = h

pub IsQuiet-query :
    {A : Type 0} (env : Env) (prefix : String) (body : ℕ → Database → Result String A × Database)
    → ((now : ℕ) (db : Database) → tables (body now db).1 ≡ tables db)
    → IsQuiet (query env prefix body)
unfolding query
IsQuiet-query env prefix body same w = record {
  calls = omega arith;
  redis = refl;
  kept =
      ap
        (λ (t : Tables). record {
          tables = t;
          key_pool = w.key_pool;
          wallet_queue = w.wallet_queue;
          spawned = w.spawned;
        })
        (settled_tables (env.database w.calls) w.db (body (env.clock w.calls) w.db).1
          (same (env.clock w.calls) w.db));
  fresh = [];
  traced = refl;
}

pub IsQuiet-rpc :
    (E : Type 0) (env : Env) (url : String) (request : RpcRequest)
    → IsQuiet (rpc env {E = E} url request)
unfolding rpc
IsQuiet-rpc E env url request w = record {
  calls = omega arith;
  redis = refl;
  kept = refl;
  fresh = [];
  traced = refl;
}

pub IsQuiet-rpc_object :
    (E : Type 0) (env : Env) (url object_id : String)
    → IsQuiet (rpc_object env {E = E} url object_id)
unfolding rpc_object
IsQuiet-rpc_object E env url object_id w = record {
  calls = omega arith;
  redis = refl;
  kept = refl;
  fresh = (w.calls, url, object_id) ∷ [];
  traced = refl;
}

-- What a block that succeeds gives together with the state that it leaves
abbrev pub Ends : {E A : Type 0} → (World → A → Type 0) → Result E A × World → Type 0
Ends P r = (a : _) → r.0 ≡ ok a → P r.1 a

Ends-resume :
    {E A B : Type 0} (P : World → B → Type 0) (r : Result E A) (f : A → Action E B) (w : World)
    → ((a : A) → r ≡ ok a → Ends P (f a w))
    → Ends P (resume r f w)
Ends-resume P (ok a) f w h = h a refl
Ends-resume P (err e) f w h = λ b q. (let failed : ⊥ = cc in absurd failed)

pub Ends-bind :
    {E A B : Type 0} (P : World → B → Type 0) (m : Action E A) (f : A → Action E B) (w : World)
    → ((a : A) → (m w).0 ≡ ok a → Ends P (f a (m w).1))
    → Ends P ((m >>= f) w)
Ends-bind P m f w h = Ends-resume P (m w).0 f (m w).1 h
