-- ===== src/Db/JobRules.antt =====
-- The rows of `remember_jobs` under its statements (src/relayer/src/db.rs).
use nautilus_memwal_relayer.Prelude.{
  ℕ, ◌≡◌, refl, String, some, List, [], ◌∷◌, Bool-cases, inl, inr, str_eq, arith,
}
use nautilus_memwal_relayer.Db.Jobs.{RememberRow, pending, row, update_row, set_failed, fail_stale}

-- The sweep of stale rows leaves a pending row as it is.
pub row-fail_stale :
    (id : String) (now secs : ℕ) (rows : List RememberRow) (r : RememberRow)
    → row id rows ≡ some r
    → r.status ≡ pending
    → row id (fail_stale now secs rows) ≡ some r
unfolding row fail_stale
row-fail_stale id now secs [] r h p = cc
row-fail_stale id now secs (s ∷ rows) r h p =
    let below = row-fail_stale id now secs rows r in
    elim (Bool-cases (str_eq s.id id)) [
      | inl here ↦ ground (arith, here, h, p)
      | inr other ↦ ground (arith, other, h, below)
    ]

-- An update of a row that keeps its id is found under the id.
pub row-update_row :
    (id : String) (f : RememberRow → RememberRow) (rows : List RememberRow) (r : RememberRow)
    → ((s : RememberRow) → (f s).id ≡ s.id)
    → row id rows ≡ some r
    → row id (update_row id f rows) ≡ some (f r)
unfolding row update_row
row-update_row id f [] r same h = cc
row-update_row id f (s ∷ rows) r same h = elim (Bool-cases (str_eq s.id id)) [
  | inl here ↦ ground (arith, here, h, same s)
  | inr other ↦ ground (arith, other, h, row-update_row id f rows r same)
]

pub row-set_failed :
    (id msg : String) (now : ℕ) (rows : List RememberRow) (r : RememberRow)
    → row id rows ≡ some r
    → row id (update_row id (set_failed msg now) rows) ≡ some (set_failed msg now r)
row-set_failed id msg now rows r h = row-update_row id (set_failed msg now) rows r (λ s. refl) h
