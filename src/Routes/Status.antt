-- ===== src/Routes/Status.antt =====
-- GET /api/remember/:job_id (src/relayer/src/routes.rs) and who may see a row.
use nautilus_memwal_relayer.Prelude.{
  ◌≡◌, refl, String, ◌<>◌, Option, none, some, ok, err, arith, eq_iff, str_eq, Bool-cases, inl, inr,
  false,
}
use nautilus_memwal_relayer.Types.{blob_not_found, AuthInfo}
use nautilus_memwal_relayer.Db.Jobs.{RememberRow, row}
use nautilus_memwal_relayer.World.State.{World}
use nautilus_memwal_relayer.World.Env.{Env}
use nautilus_memwal_relayer.World.Calls.{query}
use nautilus_memwal_relayer.Routes.Remember.{RememberStatus, answer_status, remember_status}

-- What a caller sees of a row that is theirs
abbrev pub IsShown : String → Option RememberRow → RememberStatus → Type 0
IsShown owner found shown =
    (r : RememberRow) × (found ≡ some r)
    × (r.owner ≡ owner)
    × (shown.owner ≡ owner)
    × (shown.job_id ≡ r.id)
    × (shown.status ≡ r.status)
    × (shown.blob_id ≡ r.blob_id)
    × (shown.error ≡ r.error_msg)

answer-IsShown :
    (owner job_id : String) (found : Option RememberRow) (shown : RememberStatus)
    → answer_status owner job_id found ≡ ok shown
    → IsShown owner found shown
answer-IsShown owner job_id none shown h = cc
answer-IsShown owner job_id (some r) shown h = elim (Bool-cases (str_eq r.owner owner)) [
  | inl own ↦
      let same_owner : r.owner ≡ owner = ground (arith, own, eq_iff r.owner owner) in
      (
        r,
        refl,
        same_owner,
        ground (arith, h, own),
        ground (arith, h, own),
        ground (arith, h, own),
        ground (arith, h, own),
        ground (arith, h, own),
      )
  | inr other ↦ ground (arith, h, other)
]

-- A status that is shown is that of the row of that id, with its blob and its error, and the row's
-- owner is the caller.
pub remember_status-IsShown :
    (env : Env) (auth : AuthInfo) (job_id : String) (w : World) (shown : RememberStatus)
    → (remember_status env auth job_id w).0 ≡ ok shown
    → IsShown auth.owner (row job_id w.db.jobs) shown
unfolding remember_status query
remember_status-IsShown env auth job_id w shown h =
    answer-IsShown auth.owner job_id (row job_id w.db.jobs) shown (ground arith)

-- No row, or someone else's
abbrev pub IsHidden : String → Option RememberRow → Type 0
IsHidden owner none = Unit
IsHidden owner (some r) = str_eq r.owner owner ≡ false

answer-hidden :
    (owner job_id : String) (found : Option RememberRow)
    → IsHidden owner found
    → answer_status owner job_id found ≡ err (blob_not_found ("job " <> job_id <> " not found"))
answer-hidden owner job_id none h = refl
answer-hidden owner job_id (some r) h = rw h refl

-- A caller cannot tell a row of someone else from no row: of two states in which the row of that id is
-- absent or someone else's, the answers are the same, whether the database answers or not.
pub remember_status-hidden :
    (env : Env) (auth : AuthInfo) (job_id : String) (w v : World)
    → w.calls ≡ v.calls
    → IsHidden auth.owner (row job_id w.db.jobs)
    → IsHidden auth.owner (row job_id v.db.jobs)
    → (remember_status env auth job_id w).0 ≡ (remember_status env auth job_id v).0
unfolding remember_status query
remember_status-hidden env auth job_id w v same hw hv =
    let pw = answer-hidden auth.owner job_id (row job_id w.db.jobs) hw in
    let pv = answer-hidden auth.owner job_id (row job_id v.db.jobs) hv in
    rw same (ground (arith, pw, pv))
