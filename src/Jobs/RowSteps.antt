-- ===== src/Jobs/RowSteps.antt =====
-- The row of a memory in `remember_jobs` while a job's steps (src/relayer/src/jobs.rs) are run.
use nautilus_memwal_relayer.Prelude.{
  ℕ, ◌≡◌, refl, ap, ◌∙◌, String, some, ◌<>◌, Result, ok, err, map_err,
}
use nautilus_memwal_relayer.Db.Jobs.{RememberRow, Status, done, failed, row, set_done, set_failed}
use nautilus_memwal_relayer.Db.JobRules.{row-update_row}
use nautilus_memwal_relayer.World.State.{World}
use nautilus_memwal_relayer.World.Env.{Env, answered}
use nautilus_memwal_relayer.World.Action.{Action, resume, ◌>>=◌}
use nautilus_memwal_relayer.World.Calls.{query}
use nautilus_memwal_relayer.Jobs.Errors.{WalletJobError}
use nautilus_memwal_relayer.Jobs.Wallet.{mark_job, mark_failed, or_mark_failed}

abbrev pub HasRow : String → World → Type 0
HasRow id w = (r : RememberRow) × (row id w.db.jobs ≡ some r)

abbrev pub HasStatus : String → Status → World → Type 0
HasStatus id s w = (r : RememberRow) × (row id w.db.jobs ≡ some r) × (r.status ≡ s)

module _ (id : String) where
  -- The row is done after a success and failed after an error.
  abbrev pub Ended : {E : Type 0} → Result {0, 0} E Unit × World → Type 0
  Ended (ok u, w) = HasStatus id done w
  Ended (err e, w) = HasStatus id failed w

  -- On the way: the row is there, and failed if there was an error.
  abbrev pub Underway : {E A : Type 0} → Result E A × World → Type 0
  Underway (ok a, w) = HasRow id w
  Underway (err e, w) = HasStatus id failed w

  abbrev pub Ends : {E : Type 0} → Action E Unit → Type 0
  Ends m = (w : World) → HasRow id w → Ended (m w)

  abbrev pub GoesOn : {E A : Type 0} → Action E A → Type 0
  GoesOn m = (w : World) → HasRow id w → Underway (m w)

  Ended-resume :
      {E A : Type 0} (r : Result E A) (w : World) (f : A → Action E Unit)
      → ((a : A) → Ends (f a))
      → Underway (r, w)
      → Ended (resume r f w)
  Ended-resume (ok a) w f h p = h a w p
  Ended-resume (err e) w f h p = p

  pub Ends-bind :
      {E A : Type 0} (m : Action E A) (f : A → Action E Unit)
      → GoesOn m
      → ((a : A) → Ends (f a))
      → Ends (m >>= f)
  Ends-bind m f hm hf w p = Ended-resume (m w).0 (m w).1 f hf (hm w p)

  -- A step that succeeds and does not touch the table
  pub Underway-kept :
      {E A : Type 0} (w : World) (made : Result E A × World) (a : A)
      → made.0 ≡ ok a
      → made.1.db.jobs ≡ w.db.jobs
      → HasRow id w
      → Underway made
  Underway-kept w (ok b, v) a h same p = (p.0, ap (row id) same ∙ p.1)
  Underway-kept w (err e, v) a h same p = cc

  pub Ended-map_err :
      {E F : Type 0} (f : E → F) (made : Result E Unit × World)
      → Ended made
      → Ended (map_err f made.0, made.1)
  Ended-map_err f (ok u, w) p = p
  Ended-map_err f (err e, w) p = p

  module _ (env : Env) (up : (n : ℕ) → env.database n ≡ answered) where
    mark_job-row :
        (E : Type 0) (f : ℕ → RememberRow → RememberRow)
        → ((now : ℕ) (r : RememberRow) → (f now r).id ≡ r.id)
        → (w : World) (p : HasRow id w)
        → row id (mark_job env {E = E} id f w).1.db.jobs ≡ some (f (env.clock w.calls) p.0)
    unfolding mark_job query
    mark_job-row E f same w p =
        rw (up w.calls)
          (row-update_row id (f (env.clock w.calls)) w.db.jobs p.0 (same (env.clock w.calls)) p.1)

    pub GoesOn-mark_job :
        (E : Type 0) (f : ℕ → RememberRow → RememberRow)
        → ((now : ℕ) (r : RememberRow) → (f now r).id ≡ r.id)
        → GoesOn (mark_job env {E = E} id f)
    unfolding mark_job
    GoesOn-mark_job E f same w p = (f (env.clock w.calls) p.0, mark_job-row E f same w p)

    pub Ends-mark_done :
        (E : Type 0) (blob_id : String) → Ends (mark_job env {E = E} id (set_done blob_id))
    unfolding mark_job
    Ends-mark_done E blob_id w p = (
      set_done blob_id (env.clock w.calls) p.0,
      mark_job-row E (set_done blob_id) (λ now r. refl) w p,
      refl,
    )

    pub GoesOn-or_mark_failed :
        (A : Type 0) (prefix : String) (r : Result String A)
        → GoesOn (or_mark_failed env (some id) prefix r)
    unfolding mark_failed mark_job
    GoesOn-or_mark_failed A prefix (ok a) w p = p
    GoesOn-or_mark_failed A prefix (err e) w p = (
      set_failed (prefix <> e) (env.clock w.calls) p.0,
      mark_job-row WalletJobError (set_failed (prefix <> e)) (λ now r. refl) w p,
      refl,
    )
