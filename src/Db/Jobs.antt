-- ===== src/Db/Jobs.antt =====
-- The table `remember_jobs` and its statements (src/relayer/src/db.rs, routes.rs, jobs.rs).
use nautilus_memwal_relayer.Prelude.{
  ℕ, ◌+◌, ◌*◌, String, Bool, true, false, ◌&&◌, Option, none, some, List, [], ◌∷◌, map, find_first,
  or_option, str_eq, ltb, if◌then◌else◌,
}

pub data Status : Type 0 where
  pending running uploaded done failed : Status

pub record RememberRow : Type 0 where
  pub id : String
  pub owner : String
  pub namespace : String
  pub status : Status
  pub blob_id : Option String
  pub error_msg : Option String
  pub updated_at : ℕ

-- `SELECT … WHERE id = $1`
unfoldable pub row : String → List RememberRow → Option RememberRow
row id = find_first (λ r. str_eq r.id id)

abbrev pub new_row : ℕ → String → String → String → RememberRow
new_row now id owner namespace = record {
  id = id;
  owner = owner;
  namespace = namespace;
  status = pending;
  blob_id = none;
  error_msg = none;
  updated_at = now;
}

-- `INSERT … ON CONFLICT (id) DO NOTHING`
unfoldable pub insert_row : ℕ → String → String → String → List RememberRow → List RememberRow
insert_row now id owner namespace [] = new_row now id owner namespace ∷ []
insert_row now id owner namespace (r ∷ rs) =
    if str_eq r.id id then r ∷ rs else r ∷ insert_row now id owner namespace rs

-- `UPDATE remember_jobs SET … WHERE id = $n`
unfoldable pub update_row :
    String → (RememberRow → RememberRow) → List RememberRow → List RememberRow
update_row id f [] = []
update_row id f (r ∷ rs) = (if str_eq r.id id then f r else r) ∷ update_row id f rs

abbrev pub set_running : ℕ → RememberRow → RememberRow
set_running now r = record r { status = running; updated_at = now }

abbrev pub set_uploaded : String → ℕ → RememberRow → RememberRow
set_uploaded blob_id now r = record r {
  status = uploaded;
  blob_id = some blob_id;
  updated_at = now;
}

abbrev pub set_done : String → ℕ → RememberRow → RememberRow
set_done blob_id now r = record r { status = done; blob_id = some blob_id; updated_at = now }

abbrev pub set_failed : String → ℕ → RememberRow → RememberRow
set_failed msg now r = record r { status = failed; error_msg = some msg; updated_at = now }

-- `status IN ('running', 'uploaded')`
abbrev pub in_progress : Status → Bool
in_progress running = true
in_progress uploaded = true
in_progress _ = false

-- `updated_at < NOW() - stale_after`, with both sides moved by `stale_after`
abbrev pub is_stale : ℕ → ℕ → RememberRow → Bool
is_stale now stale_after_secs r =
    in_progress r.status && ltb (r.updated_at + stale_after_secs * 1000) now

unfoldable pub fail_stale : ℕ → ℕ → List RememberRow → List RememberRow
fail_stale now stale_after_secs = map (λ r.
    if is_stale now stale_after_secs r
    then record r {
      status = failed;
      error_msg = or_option r.error_msg (some "stale/orphaned remember job");
      updated_at = now;
    }
    else r)
