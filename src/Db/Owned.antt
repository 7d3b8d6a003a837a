-- ===== src/Db/Owned.antt =====
-- The rows of `vector_entries` (src/relayer/src/db.rs) that one owner has, under the statements made for
-- another.
use nautilus_memwal_relayer.Prelude.{
  ◌≡◌, refl, ap, inl, inr, String, false, List, [], ◌∷◌, retain, All, str_eq, eq_iff, Bool-cases,
  arith,
}
use nautilus_memwal_relayer.Db.Vectors.{VectorEntry, upsert, delete_blob}

unfoldable pub rows_of : String → List VectorEntry → List VectorEntry
rows_of owner = retain (λ r. str_eq r.owner owner)

pub rows_of-delete_blob :
    (owner blob_id other : String) (rows : List VectorEntry)
    → str_eq other owner ≡ false
    → rows_of owner (delete_blob blob_id other rows) ≡ rows_of owner rows
unfolding rows_of delete_blob
rows_of-delete_blob owner blob_id other [] apart = refl
rows_of-delete_blob owner blob_id other (r ∷ rs) apart =
    let below = rows_of-delete_blob owner blob_id other rs apart in
    elim (Bool-cases (str_eq r.owner owner)) [
      | inl own ↦
          ground (
            arith,
            own,
            below,
            apart,
            eq_iff r.owner owner,
            eq_iff r.owner other,
            eq_iff other owner,
          )
      | inr foreign ↦ ground (arith, foreign, below)
    ]

-- A row of another owner, under an id that the owner has not
pub rows_of-upsert :
    (owner : String) (e : VectorEntry) (rows : List VectorEntry)
    → str_eq e.owner owner ≡ false
    → All (λ r. str_eq r.id e.id ≡ false) (rows_of owner rows)
    → rows_of owner (upsert e rows) ≡ rows_of owner rows
unfolding rows_of upsert
rows_of-upsert owner e [] apart new = rw apart refl
rows_of-upsert owner e (r ∷ rs) apart new = elim (Bool-cases (str_eq r.owner owner)) [
  | inl own ↦
      (let here : All (λ r. str_eq r.id e.id ≡ false) (r ∷ rows_of owner rs) = rw own at new in
        rw (here.0, own) (ap (◌∷◌ r) (rows_of-upsert owner e rs apart here.1)))
  | inr foreign ↦
      (let there : All (λ r. str_eq r.id e.id ≡ false) (rows_of owner rs) = rw foreign at new in
        let below = rows_of-upsert owner e rs apart there in ground (arith, foreign, below, apart))
]
