-- ===== src/RateLimit/Window.antt =====
-- `check_window` and `record_in_window` of src/relayer/src/rate_limit.rs. Times are milliseconds;
-- scores are microseconds, since the source adds thousandths to its milliseconds.
use nautilus_memwal_relayer.Prelude.{ℕ, zero, suc, ◌+◌, ◌*◌, String, List, length}
use nautilus_memwal_relayer.Redis.{Redis, live_window, prune, zadd, update}
use nautilus_memwal_relayer.World.Env.{Env}
use nautilus_memwal_relayer.World.Action.{Action, ◌>>=◌, attempt, pure}
use nautilus_memwal_relayer.World.Calls.{redis_call}

-- The pipe of `check_window`: ZREMRANGEBYSCORE, then ZCARD.
unfoldable pub prune_and_count : ℕ → ℕ → String → ℕ → Redis → ℕ × Redis
prune_and_count now span key at r =
    let window = live_window at (r.windows key) in
    let scores = prune (now * 1000) (span * 1000) window.scores in
    (length scores, record r { windows = update r.windows key (record window { scores = scores }) })

-- The ZADDs for `0..weight`.
unfoldable pub add_scores : ℕ → ℕ → List ℕ → List ℕ
add_scores base zero scores = scores
add_scores base (suc i) scores = zadd (base + i) (add_scores base i scores)

-- The pipe of `record_in_window`: the ZADDs, then EXPIRE.
unfoldable pub add_and_expire : ℕ → ℕ → ℕ → String → ℕ → Redis → Redis
unfolding add_scores
add_and_expire base weight ttl_seconds key at r =
    let window = live_window at (r.windows key) in
    record r {
      windows = update r.windows key (record {
        scores = add_scores base weight window.scores;
        expires_at = at + ttl_seconds * 1000;
      });
    }

module _ (env : Env) where
  unfoldable pub check_window : ℕ → ℕ → String → Action String ℕ
  unfolding prune_and_count
  check_window now span key = redis_call env (λ at r. prune_and_count now span key at r)

  -- A failure to record is logged and dropped.
  unfoldable pub record_in_window : {E : Type 0} → ℕ → ℕ → ℕ → String → Action E Unit
  unfolding add_and_expire
  record_in_window base weight ttl_seconds key = do
    _ ← attempt (redis_call env (λ at r. (tt, add_and_expire base weight ttl_seconds key at r)))
    pure tt
