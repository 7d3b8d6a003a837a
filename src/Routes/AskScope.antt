-- ===== src/Routes/AskScope.antt =====
-- Which memories POST /api/ask (src/relayer/src/routes.rs) uses, beside those that recall shows.
use mathlib.Core.Path.{subst}
use nautilus_memwal_relayer.Prelude.{
  ◌≤◌, ◌≡◌, refl, ap, ◌⊎◌, String, List, ok, length, flatten, unwrap_or, All, Bool-cases, inl, inr,
  arith, str_eq,
}
use nautilus_memwal_relayer.Types.{AuthInfo, Config, SearchHit}
use nautilus_memwal_relayer.Db.Vectors.{VectorEntry, delete_blob}
use nautilus_memwal_relayer.Db.Search.{search-IsScoped}
use nautilus_memwal_relayer.VectorDb.{search_similar, delete_by_blob_id}
use nautilus_memwal_relayer.World.State.{World}
use nautilus_memwal_relayer.World.Env.{Env}
use nautilus_memwal_relayer.World.Action.{lift, for_each}
use nautilus_memwal_relayer.World.Calls.{query}
use nautilus_memwal_relayer.World.Rules.{>>=-eq-ok}
use nautilus_memwal_relayer.Clients.Embeddings.{generate_embedding}
use nautilus_memwal_relayer.Clients.Rules.{embedding_lem}
use nautilus_memwal_relayer.Routes.Recall.{
  RecallResult, fetch_memory, decryption_key, cleanup_expired_blob,
}
use nautilus_memwal_relayer.Routes.RecallScope.{OfRow, KeepsBlob, fetched-OfRow, search-eq-ok}
use nautilus_memwal_relayer.Routes.Ask.{AskRequest, AskResponse, read_memory, answer_with, ask}

module _ (env : Env) (config : Config) (auth : AuthInfo) (private_key : String) where
  read_memory-KeepsBlob : KeepsBlob (read_memory env config auth private_key)
  unfolding read_memory
  read_memory-KeepsBlob hit w result h = ground arith

-- Of one hit, in the same state and with the same answers of the services, ask reads what recall
-- reads, or nothing as recall does. Their tables differ at most by recall's deletion of the caller's
-- rows of the hit's blob.
pub read_memory-fetch_memory :
    (env : Env) (config : Config) (auth : AuthInfo) (private_key : String) (hit : SearchHit)
    (w : World)
    → let asked = read_memory env config auth private_key hit w in
      let recalled = fetch_memory env config auth private_key hit w in
      (asked.0 ≡ recalled.0)
      × ((recalled.1.db.vectors ≡ asked.1.db.vectors)
          ⊎ (recalled.1.db.vectors ≡ delete_blob hit.blob_id auth.owner asked.1.db.vectors))
unfolding read_memory fetch_memory cleanup_expired_blob delete_by_blob_id query
read_memory-fetch_memory env config auth private_key hit w = ground arith

module _ (env : Env) (config : Config) (auth : AuthInfo) (body : AskRequest) where
  answer_with-memories :
      (memories : List RecallResult) (w : World) (response : AskResponse)
      → (answer_with env config auth body memories w).0 ≡ ok response
      → (response.memories ≡ memories) × (response.memories_used ≡ length memories)
  unfolding answer_with
  answer_with-memories memories w response h = ground (arith, h)

  abbrev IsFrom : List VectorEntry → AskResponse → Type 0
  IsFrom rows response =
      All (OfRow auth.owner body.namespace rows) response.memories
      × (length response.memories ≤ unwrap_or body.limit 5)
      × (response.memories_used ≡ length response.memories)

  answered-IsFrom :
      (rows : List VectorEntry) (memories : List RecallResult) (response : AskResponse)
      → (response.memories ≡ memories) × (response.memories_used ≡ length memories)
      → All (OfRow auth.owner body.namespace rows) memories
      → length memories ≤ unwrap_or body.limit 5
      → IsFrom rows response
  answered-IsFrom rows memories response made here shorter =
      rw (made.0, made.1) (here, shorter, refl)

  -- An answer that ask gives: the memories in it are at most as many as the limit, or as five if the
  -- request sets none, their number is the one that is answered, and each names the blob of a row of
  -- `vector_entries` that belonged, when the request came in, to the caller and to the namespace asked
  -- for.
  pub ask-IsScoped :
      (w : World) (response : AskResponse)
      → (ask env config auth body w).0 ≡ ok response
      → All (OfRow auth.owner body.namespace w.db.vectors) response.memories
        × (length response.memories ≤ unwrap_or body.limit 5)
        × (response.memories_used ≡ length response.memories)
  unfolding ask
  ask-IsScoped w response h = elim (Bool-cases (str_eq body.question "")) [
    | inl blank ↦ ground (arith, blank, h)
    | inr given ↦
        let owner = auth.owner in
        let namespace = body.namespace in
        let limit = unwrap_or body.limit 5 in
        let embed = generate_embedding env config body.question in
        let (vector, p1, h1) = >>=-eq-ok embed _ w {b = response} (rw given at h) in
        let v : World = (embed w).1 in
        let (hits, p2, h2) = >>=-eq-ok (search_similar env vector owner namespace limit) _ v h1 in
        let v' : World = (search_similar env vector owner namespace limit v).1 in
        let (private_key, p3, h3) =
          >>=-eq-ok
            (lift (
              decryption_key auth config
                "Delegate key or SERVER_SUI_PRIVATE_KEY required for SEAL decryption"))
            _ v' h2 in
        let fetch = read_memory env config auth private_key in
        let (fetched, p4, h4) = >>=-eq-ok (for_each fetch hits) _ v' h3 in
        let same_rows : v.db.vectors ≡ w.db.vectors =
          ap (λ (x : World). x.db.vectors) (embedding_lem env config body.question w) in
        let found = search-eq-ok env vector owner namespace limit v hits p2 in
        let scoped =
          search-IsScoped env.distance (env.reaches v.calls vector) vector owner namespace limit
            v.db.vectors in
        let here =
          fetched-OfRow owner fetch (read_memory-KeepsBlob env config auth private_key) namespace
            v.db.vectors env.distance vector hits v' fetched (rw found scoped.2) p4 in
        let shorter : length hits ≤ limit = rw found scoped.0 in
        let all_here =
          subst (λ rows. All (OfRow owner namespace rows) (flatten fetched)) same_rows here.0 in
        answered-IsFrom w.db.vectors (flatten fetched) response
          (answer_with-memories (flatten fetched) (for_each fetch hits v').1 response h4) all_here
          (omega (arith, here.1, shorter))
  ]
