-- ===== src/Routes/RestoreCounts.antt =====
-- The counts that POST /api/restore (src/relayer/src/routes.rs) answers with.
use nautilus_memwal_relayer.Prelude.{
  ℕ, suc, ◌+◌, ◌-◌, ◌≤◌, ◌≡◌, refl, ap, String, Bool, Option, none, some, List, [], ◌∷◌, ok, map,
  length, is_empty, retain, flatten, mem_str, not, length-drop, length-retain-le, Bool-cases, inl,
  inr, str_eq, ltb, arith,
}
use nautilus_memwal_relayer.Types.{AuthInfo, Bytes, Config}
use nautilus_memwal_relayer.World.State.{World}
use nautilus_memwal_relayer.World.Env.{Env, OnChainBlob}
use nautilus_memwal_relayer.World.Action.{Action, pure, lift, for_each}
use nautilus_memwal_relayer.World.Rules.{>>=-eq-ok}
use nautilus_memwal_relayer.World.Ensures.{Ensures, Ensures-bind}
use nautilus_memwal_relayer.VectorDb.{get_blobs_by_namespace}
use nautilus_memwal_relayer.Clients.Walrus.{query_blobs_by_owner}
use nautilus_memwal_relayer.Routes.Recall.{decryption_key}
use nautilus_memwal_relayer.Routes.Restore.{
  RestoreRequest, RestoreResponse, all_missing, limited, package_ids, blob_sizes, download_missing,
  decrypt_blob, embed_text, insert_restored, index_downloaded, restore_missing, restore_listed,
  restore_blobs, restore,
}

length-for_each :
    {E A B : Type 0} (f : A → Action E B) (entries : List A) (w : World) (results : List B)
    → (for_each f entries w).0 ≡ ok results
    → length results ≡ length entries
unfolding for_each
length-for_each f [] w results h = let same : results ≡ [] = cc in rw same refl
length-for_each f (a ∷ rest) w results h =
    let (b, p, h1) = >>=-eq-ok (f a) _ w h in
    let (bs, q, h2) = >>=-eq-ok (for_each f rest) _ (f a w).1 h1 in
    let below = length-for_each f rest (f a w).1 bs q in
    let same : results ≡ b ∷ bs = cc in rw same (ap suc below)

length-flatten-le {ℓ} : {A : Type ℓ} (os : List (Option A)) → length (flatten os) ≤ length os
length-flatten-le [] = omega arith
length-flatten-le (none ∷ os) = omega (arith, length-flatten-le os)
length-flatten-le (some a ∷ os) = omega (arith, length-flatten-le os)

length-map {ℓ κ} :
    {A : Type ℓ} {B : Type κ} (f : A → B) (entries : List A)
    → length (map f entries) ≡ length entries
length-map f [] = refl
length-map f (a ∷ rest) = ap suc (length-map f rest)

-- The missing blobs that are taken: no more than the limit, nor than there are.
length-limited-le :
    (limit : ℕ) (existing ids : List String)
    → let missing = limited limit (all_missing existing ids) in
      (length missing ≤ limit) × (length missing ≤ length ids)
unfolding limited all_missing
length-limited-le limit existing ids =
    let test : String → Bool = λ id. not (mem_str id existing) in
    let all = retain test ids in
    let fewer = length-retain-le test ids in
    let dropped = length-drop (length all - limit) all in
    elim (Bool-cases (ltb limit (length all))) [
      | inl more ↦
          rw more (ground (arith, more, fewer, dropped), ground (arith, more, fewer, dropped))
      | inr less ↦ rw less (ground (arith, less, fewer), fewer)
    ]

module _ (env : Env) (auth : AuthInfo) (config : Config) (namespace private_key : String)
    (packages : List (String × String)) where
  abbrev AtMost : ℕ → ℕ → World → Type 0
  AtMost n restored w = restored ≤ n

  index_downloaded-le :
      (downloaded : List (String × Bytes))
      → Ensures
          (AtMost (length downloaded))
          (index_downloaded env auth config namespace private_key packages downloaded)
  unfolding index_downloaded
  index_downloaded-le downloaded =
      let n = length downloaded in
      let decrypt = for_each (decrypt_blob env auth config private_key packages) downloaded in
      Ensures-bind (AtMost n) decrypt _ (λ decrypted w1 p1.
        Ensures-bind (AtMost n) (for_each (embed_text env auth config) (flatten decrypted)) _
          (λ embedded w2 p2.
            Ensures-bind (AtMost n)
              (for_each (insert_restored env auth config namespace (blob_sizes downloaded))
                (flatten embedded))
              (λ _. pure (length (flatten embedded)))
              (λ _ _ _ w r h.
                let same : r ≡ length (flatten embedded) = cc in
                omega (
                  arith,
                  same,
                  length-flatten-le embedded,
                  length-flatten-le decrypted,
                  length-for_each (decrypt_blob env auth config private_key packages) downloaded w1
                      decrypted p1,
                  length-for_each (embed_text env auth config) (flatten decrypted) w2 embedded p2,
                ))))

  restore_missing-le :
      (missing : List String)
      → Ensures
          (AtMost (length missing))
          (restore_missing env auth config namespace private_key packages missing)
  unfolding restore_missing
  restore_missing-le missing =
      Ensures-bind (AtMost (length missing)) (for_each (download_missing env auth) missing) _
        (λ downloads w1 p1 w r h.
          let got = flatten downloads in
          let shorter : length got ≤ length missing = omega (
            arith,
            length-flatten-le downloads,
            length-for_each (download_missing env auth) missing w1 downloads p1,
          ) in
          elim (Bool-cases (is_empty got)) [
            | inl nothing ↦ ground (arith, nothing, h)
            | inr something ↦
                let below = index_downloaded-le got w r (rw something at h) in
                omega (arith, below, shorter)
          ])

-- What the counts of a response say
abbrev pub IsCounted : AuthInfo → RestoreRequest → RestoreResponse → Type 0
IsCounted auth body response =
    (response.owner ≡ auth.owner)
    × (response.namespace ≡ body.namespace)
    × (response.restored + response.skipped ≤ response.total)
    × (response.restored ≤ body.limit)

module _ (env : Env) (auth : AuthInfo) (config : Config) (body : RestoreRequest) where
  abbrev Counted : RestoreResponse → World → Type 0
  Counted response w = IsCounted auth body response

  restore_listed-IsCounted :
      (private_key : String) (packages : List (String × String)) (total : ℕ) (missing : List String)
      → length missing ≤ total
      → length missing ≤ body.limit
      → Ensures Counted (restore_listed env auth config body private_key packages total missing)
  unfolding restore_listed
  restore_listed-IsCounted private_key packages total missing fits short w response h =
      elim (Bool-cases (is_empty missing)) [
        | inl nothing ↦ ground (arith, nothing, h)
        | inr something ↦
            let (restored, p, h1) =
              >>=-eq-ok
                (restore_missing env auth config body.namespace private_key packages missing) _ w
                {b = response} (rw something at h) in
            let few =
              restore_missing-le env auth config body.namespace private_key packages missing w
                restored p in
            ground (arith, few, h1)
      ]

  restore_blobs-IsCounted :
      (private_key : String) (blobs : List OnChainBlob)
      → Ensures Counted (restore_blobs env auth config body private_key blobs)
  unfolding restore_blobs
  restore_blobs-IsCounted private_key blobs w response h =
      let ids = map (λ (b : OnChainBlob). b.blob_id) blobs in
      elim (Bool-cases (is_empty ids)) [
        | inl nothing ↦ ground (arith, nothing, h)
        | inr something ↦
            let (existing, p, h1) =
              >>=-eq-ok (get_blobs_by_namespace env auth.owner body.namespace) _ w {b = response}
                (rw something at h) in
            let bounds = length-limited-le body.limit existing ids in
            restore_listed-IsCounted private_key (package_ids blobs) (length ids)
              (limited body.limit (all_missing existing ids)) bounds.1 bounds.0 _ response h1
      ]

-- A restore that succeeds answers with the caller's address and the namespace asked for; what it
-- restored is no more than the limit, and with what it skipped no more than the total found on the
-- chain.
pub restore-IsCounted :
    (env : Env) (auth : AuthInfo) (config : Config) (body : RestoreRequest) (w : World)
    (response : RestoreResponse)
    → (restore env auth config body w).0 ≡ ok response
    → IsCounted auth body response
unfolding restore
restore-IsCounted env auth config body w response h = elim (Bool-cases (str_eq body.namespace "")) [
  | inl blank ↦ ground (arith, blank, h)
  | inr given ↦
      let key =
        decryption_key auth config "Delegate key or SERVER_SUI_PRIVATE_KEY required for restore" in
      let (private_key, p0, h0) = >>=-eq-ok (lift key) _ w {b = response} (rw given at h) in
      let (blobs, p1, h1) =
        >>=-eq-ok
          (query_blobs_by_owner env config auth.owner (some body.namespace)
            (some config.package_id))
          (restore_blobs env auth config body private_key) w h0 in
      restore_blobs-IsCounted env auth config body private_key blobs _ response h1
]
