-- ===== src/Jobs/Found.antt =====
-- A memory that a wallet job (src/relayer/src/jobs.rs) has stored, and the search of
-- src/relayer/src/db.rs for it.
use mathlib.Core.Path.{subst}
use mathlib.Core.List.{Memᴰ}
use nautilus_memwal_relayer.Prelude.{
  ℕ, ◌≤◌, ◌≡◌, sym, ap, ◌⊎◌, inl, inr, String, true, Option, some, List, [], ◌∷◌, ok, length, All,
  Bool-cases, str_eq, arith,
}
use nautilus_memwal_relayer.Types.{Config, Embedding, SearchHit}
use nautilus_memwal_relayer.Db.Vectors.{VectorEntry, search}
use nautilus_memwal_relayer.Db.VectorRules.{entry}
use nautilus_memwal_relayer.Db.Search.{search-nearest}
use nautilus_memwal_relayer.VectorDb.{search_similar}
use nautilus_memwal_relayer.World.State.{World}
use nautilus_memwal_relayer.World.Env.{Env}
use nautilus_memwal_relayer.World.Calls.{query}
use nautilus_memwal_relayer.Jobs.Wallet.{execute_upload_and_transfer}
use nautilus_memwal_relayer.Jobs.Stored.{execute_upload_and_transfer-IsStored}

entry-Mem :
    (id : String) (rows : List VectorEntry) (e : VectorEntry) → entry id rows ≡ some e → Memᴰ e rows
unfolding entry
entry-Mem id [] e h = cc
entry-Mem id (r ∷ rs) e h = elim (Bool-cases (str_eq r.id id)) [
  | inl here ↦ let same : e ≡ r = ground (arith, here, h) in Memᴰ.head same
  | inr other ↦
      let below : entry id rs ≡ some e = ground (arith, other, h) in
      Memᴰ.tail (entry-Mem id rs e below)
]

search_similar-eq-ok :
    (env : Env) (vector : Embedding) (owner namespace : String) (limit : ℕ) (w : World)
    (hits : List SearchHit)
    → (search_similar env vector owner namespace limit w).0 ≡ ok hits
    → search env.distance (env.reaches w.calls vector) vector owner namespace limit w.db.vectors
      ≡ hits
unfolding search_similar query
search_similar-eq-ok env vector owner namespace limit w hits h = ground (arith, h)

-- After an upload job that succeeds, a search that answers, for whatever vector and limit, in the
-- job's owner and namespace, where the index's scan reaches the row that is stored under the job's
-- id: that row has the job's vector; and the search shows it, by its blob and at its vector's
-- distance, or the limit is reached, and every hit is as near.
pub execute_upload_and_transfer-search_similar :
    (env : Env) (config : Config) (wallet_index epochs : ℕ) (encrypted_b64 : String)
    (vector : Embedding) (owner namespace package_id id : String) (agent : Option String)
    (w : World) (asked : Embedding) (limit : ℕ) (hits : List SearchHit) (e : VectorEntry)
    → let made =
        execute_upload_and_transfer env config wallet_index encrypted_b64 vector owner namespace
          package_id agent
          (some id)
          epochs
          w in
      made.0 ≡ ok tt
      → entry id made.1.db.vectors ≡ some e
      → env.reaches made.1.calls asked e ≡ true
      → (search_similar env asked owner namespace limit made.1).0 ≡ ok hits
      → (e.embedding ≡ vector)
        × (Memᴰ (record { blob_id = e.blob_id; distance = env.distance vector asked }) hits
            ⊎ ((length hits ≡ limit)
                × All (λ (h : SearchHit). h.distance ≤ env.distance vector asked) hits))
execute_upload_and_transfer-search_similar env config wallet_index epochs encrypted_b64 vector owner
      namespace package_id id agent w asked limit hits e stored there scanned found =
    let v : World =
      (execute_upload_and_transfer env config wallet_index encrypted_b64 vector owner namespace
        package_id agent (some id) epochs w).1 in
    let (encrypted, blob_id, decoded, stored_entry) =
      execute_upload_and_transfer-IsStored env config wallet_index epochs encrypted_b64 vector owner
        namespace package_id id agent w stored in
    let made : VectorEntry = record {
      id = id;
      owner = owner;
      namespace = namespace;
      blob_id = blob_id;
      embedding = vector;
      blob_size_bytes = length encrypted;
    } in
    let same : made ≡ e = cc in
    let nearest =
      search-nearest env.distance (env.reaches v.calls asked) asked owner namespace limit
        v.db.vectors e (sym (ap (λ (r : VectorEntry). r.owner) same))
        (sym (ap (λ (r : VectorEntry). r.namespace) same)) scanned
        (entry-Mem id v.db.vectors e there) in
    let close : e.embedding ≡ vector = sym (ap (λ (r : VectorEntry). r.embedding) same) in
    let shown =
      subst
        (λ (x : Embedding).
          Memᴰ (record { blob_id = e.blob_id; distance = env.distance x asked })
            (search env.distance (env.reaches v.calls asked) asked owner namespace limit
              v.db.vectors)
          ⊎ ((length (
                  search env.distance (env.reaches v.calls asked) asked owner namespace limit
                    v.db.vectors)
                ≡ limit)
              × All (λ (h : SearchHit). h.distance ≤ env.distance x asked)
                  (search env.distance (env.reaches v.calls asked) asked owner namespace limit
                    v.db.vectors)))
        close nearest in
    (
      close,
      subst
          (λ (hs : List SearchHit).
            Memᴰ (record { blob_id = e.blob_id; distance = env.distance vector asked }) hs
            ⊎ ((length hs ≡ limit)
                × All (λ (h : SearchHit). h.distance ≤ env.distance vector asked) hs))
          (search_similar-eq-ok env asked owner namespace limit v hits found) shown,
    )
