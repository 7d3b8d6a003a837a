-- ===== src/Db/Vectors.antt =====
-- The table `vector_entries` and its statements (src/relayer/src/db.rs).
use nautilus_memwal_relayer.Prelude.{
  ℕ, String, Bool, ◌&&◌, not, List, [], ◌∷◌, map, retain, take, sum, mem_str, str_eq, leb,
  if◌then◌else◌,
}
use nautilus_memwal_relayer.Types.{Embedding, SearchHit}

pub record VectorEntry : Type 0 where
  pub id : String
  pub owner : String
  pub namespace : String
  pub blob_id : String
  pub embedding : Embedding
  pub blob_size_bytes : ℕ

-- `INSERT … ON CONFLICT (id) DO UPDATE`: the row of that id is overwritten in place.
unfoldable pub upsert : VectorEntry → List VectorEntry → List VectorEntry
upsert e [] = e ∷ []
upsert e (r ∷ rs) = if str_eq r.id e.id then e ∷ rs else r ∷ upsert e rs

-- `WHERE owner = $2 AND namespace = $3`
abbrev pub in_scope : String → String → VectorEntry → Bool
in_scope owner namespace r = str_eq r.owner owner && str_eq r.namespace namespace

-- `ORDER BY distance`, ties in table order
unfoldable pub insert_by_distance : SearchHit → List SearchHit → List SearchHit
insert_by_distance h [] = h ∷ []
insert_by_distance h (g ∷ gs) =
    if leb h.distance g.distance then h ∷ g ∷ gs else g ∷ insert_by_distance h gs

unfoldable pub sort_by_distance : List SearchHit → List SearchHit
unfolding insert_by_distance
sort_by_distance [] = []
sort_by_distance (h ∷ hs) = insert_by_distance h (sort_by_distance hs)

-- The table's embeddings have an approximate (HNSW) index, whose scan `reached` some of the rows; the
-- condition is tested on those. `distance` is pgvector's `<=>`. A cosine distance is not negative, so the bit patterns of two
-- `float8` are ordered as the distances are.
unfoldable pub search :
    (Embedding → Embedding → ℕ)
    → (VectorEntry → Bool)
    → Embedding
    → String
    → String
    → ℕ
    → List VectorEntry
    → List SearchHit
unfolding sort_by_distance
search distance reached query owner namespace limit rows = take limit (
    sort_by_distance (
      map (λ r. record { blob_id = r.blob_id; distance = distance r.embedding query })
        (retain (in_scope owner namespace) (retain reached rows))))

-- `SELECT DISTINCT`
unfoldable pub distinct : List String → List String
distinct [] = []
distinct (s ∷ ss) = let rest = distinct ss in if mem_str s ss then rest else s ∷ rest

unfoldable pub blobs_of : String → String → List VectorEntry → List String
unfolding distinct
blobs_of owner namespace rows =
    distinct (map (λ r. r.blob_id) (retain (in_scope owner namespace) rows))

abbrev pub of_blob : String → String → VectorEntry → Bool
of_blob blob_id owner r = str_eq r.blob_id blob_id && str_eq r.owner owner

unfoldable pub delete_blob : String → String → List VectorEntry → List VectorEntry
delete_blob blob_id owner = retain (λ r. not (of_blob blob_id owner r))

unfoldable pub delete_scope : String → String → List VectorEntry → List VectorEntry
delete_scope owner namespace = retain (λ r. not (in_scope owner namespace r))

-- `COALESCE(SUM(blob_size_bytes), 0) … WHERE owner = $1`
unfoldable pub storage_used : String → List VectorEntry → ℕ
storage_used owner rows =
    sum (map (λ r. r.blob_size_bytes) (retain (λ r. str_eq r.owner owner) rows))
