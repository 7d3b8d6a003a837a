-- ===== src/Routes/RecallScope.antt =====
-- Where the results of POST /api/recall and /api/recall/manual (src/relayer/src/routes.rs) come from.
use mathlib.Core.Path.{subst}
use mathlib.Core.List.{Memᴰ}
use nautilus_memwal_relayer.Prelude.{
  ℕ, suc, ◌≤◌, ◌≡◌, refl, sym, ap, ◌∙◌, String, Option, none, some, List, [], ◌∷◌, ok, length,
  flatten, All, Bool-cases, inl, inr, arith, str_eq,
}
use nautilus_memwal_relayer.Types.{AppError, AuthInfo, Config, Embedding, SearchHit}
use nautilus_memwal_relayer.Db.Vectors.{VectorEntry, search}
use nautilus_memwal_relayer.Db.Search.{search-IsScoped, ComesFrom}
use nautilus_memwal_relayer.VectorDb.{search_similar}
use nautilus_memwal_relayer.World.State.{World}
use nautilus_memwal_relayer.World.Env.{Env}
use nautilus_memwal_relayer.World.Action.{Action, lift, for_each}
use nautilus_memwal_relayer.World.Calls.{query}
use nautilus_memwal_relayer.World.Rules.{>>=-eq-ok}
use nautilus_memwal_relayer.Clients.Embeddings.{generate_embedding}
use nautilus_memwal_relayer.Clients.Rules.{embedding_lem}
use nautilus_memwal_relayer.Routes.Recall.{
  RecallRequest, RecallResult, RecallResponse, fetch_memory, recall, recall_with, decryption_key,
}

-- The hits that a search finds are those of the rows that the table then holds.
pub search-eq-ok :
    (env : Env) (vector : Embedding) (owner namespace : String) (limit : ℕ) (w : World)
    (hits : List SearchHit)
    → (search_similar env vector owner namespace limit w).0 ≡ ok hits
    → hits
      ≡ search env.distance (env.reaches w.calls vector) vector owner namespace limit w.db.vectors
unfolding search_similar query
search-eq-ok env vector owner namespace limit w hits h = ground arith

-- A result that stands for one of those rows
abbrev pub OfRow : String → String → List VectorEntry → RecallResult → Type 0
OfRow owner namespace rows result =
    (r : VectorEntry) × Memᴰ r rows
    × (r.owner ≡ owner)
    × (r.namespace ≡ namespace)
    × (r.blob_id ≡ result.blob_id)

-- A task that reads the memory of a hit, and keeps the hit's blob
abbrev pub KeepsBlob : (SearchHit → Action AppError (Option RecallResult)) → Type 0
KeepsBlob fetch =
    (hit : SearchHit) (w : World) (result : RecallResult)
    → (fetch hit w).0 ≡ ok (some result)
    → hit.blob_id ≡ result.blob_id

fetch_memory-KeepsBlob :
    (env : Env) (config : Config) (auth : AuthInfo) (private_key : String)
    → KeepsBlob (fetch_memory env config auth private_key)
unfolding fetch_memory
fetch_memory-KeepsBlob env config auth private_key hit w result h = ground arith

module _ (owner : String) (fetch : SearchHit → Action AppError (Option RecallResult))
    (keeps : KeepsBlob fetch) where
  -- What one more fetched memory adds
  keep_fetched :
      (namespace : String) (rows : List VectorEntry) (n : ℕ) (o : Option RecallResult)
      (rest : List (Option RecallResult))
      → ((result : RecallResult) → o ≡ some result → OfRow owner namespace rows result)
      → All (OfRow owner namespace rows) (flatten rest) × (length (flatten rest) ≤ n)
      → All (OfRow owner namespace rows) (flatten (o ∷ rest))
        × (length (flatten (o ∷ rest)) ≤ suc n)
  keep_fetched namespace rows n none rest here below = (below.0, omega (arith, below.1))
  keep_fetched namespace rows n (some result) rest here below =
      ((here result refl, below.0), omega (arith, below.1))

  pub fetched-OfRow :
      (namespace : String) (rows : List VectorEntry) (distance : Embedding → Embedding → ℕ)
      (vector : Embedding) (hits : List SearchHit) (w : World)
      (fetched : List (Option RecallResult))
      → All (ComesFrom distance vector owner namespace rows) hits
      → (for_each fetch hits w).0 ≡ ok fetched
      → All (OfRow owner namespace rows) (flatten fetched)
        × (length (flatten fetched) ≤ length hits)
  unfolding for_each
  fetched-OfRow namespace rows distance vector [] w fetched from h =
      let same : [] ≡ fetched = cc in
      subst (λ fs. All (OfRow owner namespace rows) (flatten fs) × (length (flatten fs) ≤ 0)) same
        (tt, omega arith)
  fetched-OfRow namespace rows distance vector (hit ∷ hits) w fetched from h =
      let (first, p1, h1) = >>=-eq-ok (fetch hit) _ w h in
      let (rest, p2, h2) = >>=-eq-ok (for_each fetch hits) _ (fetch hit w).1 h1 in
      let (r, inside, same_owner, same_namespace, same_hit) = from.0 in
      let same : (first ∷ rest) ≡ fetched = cc in
      subst
        (λ fs.
          All (OfRow owner namespace rows) (flatten fs) × (length (flatten fs) ≤ suc (length hits)))
        same
        (keep_fetched namespace rows (length hits) first rest
          (λ result e. (
            r,
            inside,
            same_owner,
            same_namespace,
            sym (ap (λ (k : SearchHit). k.blob_id) same_hit) ∙ keeps hit w result (p1 ∙ ap ok e),
          ))
          (fetched-OfRow namespace rows distance vector hits (fetch hit w).1 rest from.1 p2))

-- What a response says of the rows of a table
abbrev IsFrom : AuthInfo → RecallRequest → List VectorEntry → RecallResponse → Type 0
IsFrom auth body rows response =
    All (OfRow auth.owner body.namespace rows) response.results
    × (response.total ≤ body.limit)
    × (length response.results ≡ response.total)

recall_with-IsScoped :
    (env : Env) (config : Config) (auth : AuthInfo) (body : RecallRequest) (private_key : String)
    (w : World) (response : RecallResponse)
    → (recall_with env config auth body private_key w).0 ≡ ok response
    → IsFrom auth body w.db.vectors response
unfolding recall_with
recall_with-IsScoped env config auth body private_key w response h =
    let owner = auth.owner in
    let namespace = body.namespace in
    let fetch = fetch_memory env config auth private_key in
    let (vector, p1, h1) = >>=-eq-ok (generate_embedding env config body.query) _ w h in
    let v : World = (generate_embedding env config body.query w).1 in
    let (hits, p2, h2) = >>=-eq-ok (search_similar env vector owner namespace body.limit) _ v h1 in
    let v' : World = (search_similar env vector owner namespace body.limit v).1 in
    let (fetched, p3, h3) = >>=-eq-ok (for_each fetch hits) _ v' h2 in
    let same_rows : v.db.vectors ≡ w.db.vectors =
      ap (λ (x : World). x.db.vectors) (embedding_lem env config body.query w) in
    let found = search-eq-ok env vector owner namespace body.limit v hits p2 in
    let scoped =
      search-IsScoped env.distance (env.reaches v.calls vector) vector owner namespace body.limit
        v.db.vectors in
    let here =
      fetched-OfRow owner fetch (fetch_memory-KeepsBlob env config auth private_key) namespace
        v.db.vectors env.distance vector hits v' fetched (rw found scoped.2) p3 in
    let shorter : length hits ≤ body.limit = rw found scoped.0 in
    let all_here =
      subst (λ rows. All (OfRow owner namespace rows) (flatten fetched)) same_rows here.0 in
    let built : RecallResponse = record {
      results = flatten fetched;
      total = length (flatten fetched);
    } in
    let same : built ≡ response = cc in
    subst (IsFrom auth body w.db.vectors) same (all_here, omega (arith, here.1, shorter), refl)

-- A recall that succeeds: its results are at most as many as the limit, their number is the total
-- that is answered, and each names the blob of a row of `vector_entries` that belonged, when the
-- request came in, to the caller and to the namespace asked for.
pub recall-IsScoped :
    (env : Env) (config : Config) (auth : AuthInfo) (body : RecallRequest) (w : World)
    (response : RecallResponse)
    → (recall env config auth body w).0 ≡ ok response
    → All (OfRow auth.owner body.namespace w.db.vectors) response.results
      × (response.total ≤ body.limit)
      × (length response.results ≡ response.total)
unfolding recall
recall-IsScoped env config auth body w response h = elim (Bool-cases (str_eq body.query "")) [
  | inl blank ↦ ground (arith, blank, h)
  | inr given ↦
      let (private_key, p0, h0) =
        >>=-eq-ok
          (lift (
            decryption_key auth config
              "Delegate key or SERVER_SUI_PRIVATE_KEY required for SEAL decryption"))
          (recall_with env config auth body) w {b = response} (rw given at h) in
      recall_with-IsScoped env config auth body private_key w response h0
]
