-- ===== src/Db/VectorRules.antt =====
-- The identity of rows in `vector_entries` (src/relayer/src/db.rs): what an upsert changes and keeps,
-- and that a deletion stays with its owner.
use nautilus_memwal_relayer.Prelude.{
  ◌≡◌, refl, inl, inr, String, not, Option, some, List, [], ◌∷◌, retain, find_first, str_eq, eq_iff,
  Bool-cases, arith, if◌then◌else◌,
}
use nautilus_memwal_relayer.Db.Vectors.{VectorEntry, upsert, delete_blob}

-- The row of an id
unfoldable pub entry : String → List VectorEntry → Option VectorEntry
entry id = find_first (λ r. str_eq r.id id)

-- The rows of everyone else
unfoldable pub others : String → List VectorEntry → List VectorEntry
others owner = retain (λ r. not (str_eq r.owner owner))

-- After an upsert the row of an id is the new one, if that has the id, and else what it was before.
pub entry-upsert :
    (id : String) (e : VectorEntry) (rows : List VectorEntry)
    → entry id (upsert e rows) ≡ (if str_eq e.id id then some e else entry id rows)
unfolding entry upsert
entry-upsert id e [] = refl
entry-upsert id e (r ∷ rs) = elim (Bool-cases (str_eq r.id e.id)) [
  | inl same ↦ ground (arith, same, eq_iff r.id e.id)
  | inr new ↦
      let below = entry-upsert id e rs in
      ground (arith, new, below, eq_iff r.id id, eq_iff e.id id, eq_iff r.id e.id)
]

-- A deletion takes no row of another owner.
pub others-delete_blob :
    (blob_id owner : String) (rows : List VectorEntry)
    → others owner (delete_blob blob_id owner rows) ≡ others owner rows
unfolding others delete_blob
others-delete_blob blob_id owner [] = refl
others-delete_blob blob_id owner (r ∷ rs) =
    let below = others-delete_blob blob_id owner rs in
    elim (Bool-cases (str_eq r.owner owner)) [
      | inl own ↦ ground (arith, own, below)
      | inr other ↦ ground (arith, other, below)
    ]
