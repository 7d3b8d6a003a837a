-- ===== src/Db/Search.antt =====
-- What a similarity search (src/relayer/src/db.rs) returns of the rows that the index's scan reaches.
use mathlib.Core.List.{Memᴰ}
use mathlib.Core.List.Memᴰ
use nautilus_memwal_relayer.Prelude.{
  ℕ, ◌≤◌, ◌≡◌, refl, sym, ap, ◌∙◌, ◌⊎◌, inl, inr, String, true, List, [], ◌∷◌, map, retain, length,
  All, All-take, length-take, Bool-cases, arith, eq_iff, eq_refl, Bool,
}
use nautilus_memwal_relayer.Types.{Embedding, SearchHit}
use nautilus_memwal_relayer.Db.Sorted.{
  IsSorted, All-sort, sort-IsSorted, take-IsSorted, Mem-sort, nearest-take,
}
use nautilus_memwal_relayer.Db.Vectors.{VectorEntry, in_scope, sort_by_distance, search}

pub in_scope-eq :
    (owner namespace : String) (r : VectorEntry)
    → in_scope owner namespace r ≡ true
    → (r.owner ≡ owner) × (r.namespace ≡ namespace)
in_scope-eq owner namespace r h = ground (arith, eq_iff r.owner owner, eq_iff r.namespace namespace)

in_scope-true :
    (owner namespace : String) (r : VectorEntry)
    → r.owner ≡ owner
    → r.namespace ≡ namespace
    → in_scope owner namespace r ≡ true
in_scope-true owner namespace r own same = rw (own, same, eq_refl owner, eq_refl namespace) refl

-- The hit of a row
abbrev pub hit_of : (Embedding → Embedding → ℕ) → Embedding → VectorEntry → SearchHit
hit_of distance query r = record { blob_id = r.blob_id; distance = distance r.embedding query }

-- The hit comes from a row of that owner and namespace.
abbrev pub ComesFrom :
    (Embedding → Embedding → ℕ)
    → Embedding
    → String
    → String
    → List VectorEntry
    → SearchHit
    → Type 0
ComesFrom distance query owner namespace rows h =
    (r : VectorEntry) × Memᴰ r rows
    × (r.owner ≡ owner)
    × (r.namespace ≡ namespace)
    × (h ≡ hit_of distance query r)

Mem-retain :
    (p : VectorEntry → Bool) (r : VectorEntry) (rows : List VectorEntry)
    → p r ≡ true
    → Memᴰ r rows
    → Memᴰ r (retain p rows)
Mem-retain p r [] hit m = elim m [ ]
Mem-retain p r (s ∷ rows) hit m = elim (Memᴰ.cases_cons m) [
  | inl e ↦ rw ((sym (ap p e)) ∙ hit) (Memᴰ.head e)
  | inr later ↦ elim (Bool-cases (p s)) [
    | inl kept ↦ rw kept (Memᴰ.tail (Mem-retain p r rows hit later))
    | inr left ↦ rw left (Mem-retain p r rows hit later)
  ]
]

retain-Mem :
    (p : VectorEntry → Bool) (r : VectorEntry) (rows : List VectorEntry)
    → Memᴰ r (retain p rows)
    → Memᴰ r rows
retain-Mem p r [] m = elim m [ ]
retain-Mem p r (s ∷ rows) m = elim (Bool-cases (p s)) [
  | inl kept ↦ elim (Memᴰ.cases_cons (rw kept at m)) [
    | inl e ↦ Memᴰ.head e
    | inr later ↦ Memᴰ.tail (retain-Mem p r rows later)
  ]
  | inr left ↦ Memᴰ.tail (retain-Mem p r rows (rw left at m))
]

module _ (distance : Embedding → Embedding → ℕ) (reached : VectorEntry → Bool) (query : Embedding)
    (owner namespace : String) where
  hits_from :
      (table rows : List VectorEntry)
      → ((r : VectorEntry) → Memᴰ r rows → Memᴰ r table)
      → All
          (ComesFrom distance query owner namespace table)
          (map (hit_of distance query) (retain (in_scope owner namespace) rows))
  hits_from table [] sub = tt
  hits_from table (r ∷ rows) sub =
      let rest = hits_from table rows (λ s m. sub s (Memᴰ.tail m)) in
      elim (Bool-cases (in_scope owner namespace r)) [
        | inl here ↦
            let scope = in_scope-eq owner namespace r here in
            rw here ((r, sub r (Memᴰ.head refl), scope.0, scope.1, refl), rest)
        | inr away ↦ rw away rest
      ]

  Mem-hits :
      (r : VectorEntry) (rows : List VectorEntry)
      → in_scope owner namespace r ≡ true
      → Memᴰ r rows
      → Memᴰ
          (hit_of distance query r)
          (map (hit_of distance query) (retain (in_scope owner namespace) rows))
  Mem-hits r [] here m = elim m [ ]
  Mem-hits r (s ∷ rows) here m = elim (Memᴰ.cases_cons m) [
    | inl e ↦
        rw ((sym (ap (in_scope owner namespace) e)) ∙ here)
          (Memᴰ.head (ap (hit_of distance query) e))
    | inr later ↦ elim (Bool-cases (in_scope owner namespace s)) [
      | inl kept ↦ rw kept (Memᴰ.tail (Mem-hits r rows here later))
      | inr away ↦ rw away (Mem-hits r rows here later)
    ]
  ]

  -- A search returns at most `limit` hits, in the order of their distance, and each is the hit of a
  -- row of the table with that owner and that namespace.
  pub search-IsScoped :
      (limit : ℕ) (rows : List VectorEntry)
      → let hits = search distance reached query owner namespace limit rows in
        (length hits ≤ limit)
        × IsSorted hits
        × All (ComesFrom distance query owner namespace rows) hits
  unfolding search
  search-IsScoped limit rows =
      let there = retain reached rows in
      let found = map (hit_of distance query) (retain (in_scope owner namespace) there) in
      let sorted = sort_by_distance found in
      (
        omega (arith, length-take limit sorted),
        take-IsSorted limit sorted (sort-IsSorted found),
        All-take (ComesFrom distance query owner namespace rows) limit sorted (
            All-sort (ComesFrom distance query owner namespace rows) found
              (hits_from rows there (λ r m. retain-Mem reached r rows m))),
      )

  -- A row of the owner and namespace that the scan of the index has reached and that the search
  -- leaves out: the search has returned `limit` hits, and every one of them is as near as that row.
  pub search-nearest :
      (limit : ℕ) (rows : List VectorEntry) (r : VectorEntry)
      → r.owner ≡ owner
      → r.namespace ≡ namespace
      → reached r ≡ true
      → Memᴰ r rows
      → let hits = search distance reached query owner namespace limit rows in
        Memᴰ (hit_of distance query r) hits
        ⊎ ((length hits ≡ limit) × All (λ h. h.distance ≤ distance r.embedding query) hits)
  unfolding search
  search-nearest limit rows r own same scanned m =
      let here : in_scope owner namespace r ≡ true = in_scope-true owner namespace r own same in
      let there = retain reached rows in
      let found = map (hit_of distance query) (retain (in_scope owner namespace) there) in
      nearest-take limit (hit_of distance query r) (sort_by_distance found) (sort-IsSorted found) (
        Mem-sort (hit_of distance query r) found
          (Mem-hits r there here (Mem-retain reached r rows scanned m)))
