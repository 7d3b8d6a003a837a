-- ===== src/Db/Sorted.antt =====
-- The order in which `ORDER BY distance LIMIT` (src/relayer/src/db.rs) gives its rows.
use mathlib.Core.Path.{subst}
use mathlib.Core.List.{Memᴰ}
use mathlib.Core.List.Memᴰ
use nautilus_memwal_relayer.Prelude.{
  ℕ, zero, suc, ◌≤◌, ◌≡◌, refl, sym, ap, ◌⊎◌, inl, inr, List, [], ◌∷◌, take, length, All, All-take,
  All-weaken, leb, leb→le, Bool-cases, arith,
}
use nautilus_memwal_relayer.Types.{SearchHit}
use nautilus_memwal_relayer.Db.Vectors.{insert_by_distance, sort_by_distance}

-- In order of distance
abbrev pub IsSorted : List SearchHit → Type 0
IsSorted [] = Unit
IsSorted (h ∷ hs) = All (λ g. h.distance ≤ g.distance) hs × IsSorted hs

module _ {ℓ} (P : SearchHit → Type ℓ) where
  All-insert :
      (h : SearchHit) (hs : List SearchHit) → P h → All P hs → All P (insert_by_distance h hs)
  unfolding insert_by_distance
  All-insert h [] p ps = (p, tt)
  All-insert h (g ∷ gs) p ps = elim (Bool-cases (leb h.distance g.distance)) [
    | inl le ↦ rw le (p, ps)
    | inr gt ↦ rw gt (ps.0, All-insert h gs p ps.1)
  ]

  pub All-sort : (hs : List SearchHit) → All P hs → All P (sort_by_distance hs)
  unfolding sort_by_distance
  All-sort [] ps = tt
  All-sort (h ∷ hs) ps = All-insert h (sort_by_distance hs) ps.0 (All-sort hs ps.1)

insert-IsSorted :
    (h : SearchHit) (hs : List SearchHit) → IsSorted hs → IsSorted (insert_by_distance h hs)
unfolding insert_by_distance
insert-IsSorted h [] s = (tt, tt)
insert-IsSorted h (g ∷ gs) s = elim (Bool-cases (leb h.distance g.distance)) [
  | inl le ↦ rw le (
    (
      leb→le h.distance g.distance le,
      All-weaken (λ k. g.distance ≤ k.distance) (λ k. h.distance ≤ k.distance) gs
          (λ k q. let near = leb→le h.distance g.distance le in omega arith) s.0,
    ),
    s,
  )
  | inr gt ↦
      rw gt (
        All-insert (λ k. g.distance ≤ k.distance) h gs (ground arith) s.0,
        insert-IsSorted h gs s.1,
      )
]

pub sort-IsSorted : (hs : List SearchHit) → IsSorted (sort_by_distance hs)
unfolding sort_by_distance
sort-IsSorted [] = tt
sort-IsSorted (h ∷ hs) = insert-IsSorted h (sort_by_distance hs) (sort-IsSorted hs)

pub take-IsSorted : (n : ℕ) (hs : List SearchHit) → IsSorted hs → IsSorted (take n hs)
take-IsSorted zero hs s = tt
take-IsSorted (suc n) [] s = tt
take-IsSorted (suc n) (h ∷ hs) s =
    (All-take (λ k. h.distance ≤ k.distance) n hs s.0, take-IsSorted n hs s.1)

insert-head : (h : SearchHit) (hs : List SearchHit) → Memᴰ h (insert_by_distance h hs)
unfolding insert_by_distance
insert-head h [] = Memᴰ.head refl
insert-head h (g ∷ gs) = elim (Bool-cases (leb h.distance g.distance)) [
  | inl le ↦ rw le (Memᴰ.head refl)
  | inr gt ↦ rw gt (Memᴰ.tail (insert-head h gs))
]

insert-tail : (x h : SearchHit) (hs : List SearchHit) → Memᴰ x hs → Memᴰ x (insert_by_distance h hs)
unfolding insert_by_distance
insert-tail x h [] m = elim m [ ]
insert-tail x h (g ∷ gs) m = elim (Bool-cases (leb h.distance g.distance)) [
  | inl le ↦ rw le (Memᴰ.tail m)
  | inr gt ↦ rw gt (elim (Memᴰ.cases_cons m) [
    | inl e ↦ Memᴰ.head e
    | inr later ↦ Memᴰ.tail (insert-tail x h gs later)
  ])
]

pub Mem-sort : (x : SearchHit) (hs : List SearchHit) → Memᴰ x hs → Memᴰ x (sort_by_distance hs)
unfolding sort_by_distance
Mem-sort x [] m = elim m [ ]
Mem-sort x (h ∷ hs) m = elim (Memᴰ.cases_cons m) [
  | inl e ↦ Memᴰ.cast e (insert-head h (sort_by_distance hs))
  | inr later ↦ insert-tail x h (sort_by_distance hs) (Mem-sort x hs later)
]

All-Mem {ℓ} :
    (P : SearchHit → Type ℓ) (x : SearchHit) (hs : List SearchHit) → All P hs → Memᴰ x hs → P x
All-Mem P x [] ps m = elim m [ ]
All-Mem P x (h ∷ hs) ps m = elim (Memᴰ.cases_cons m) [
  | inl e ↦ subst P (sym e) ps.0
  | inr later ↦ All-Mem P x hs ps.1 later
]

-- Of a sorted list's members, the first `n` are returned, or are all as near.
pub nearest-take :
    (n : ℕ) (x : SearchHit) (hs : List SearchHit)
    → IsSorted hs
    → Memᴰ x hs
    → Memᴰ x (take n hs)
      ⊎ ((length (take n hs) ≡ n) × All (λ h. h.distance ≤ x.distance) (take n hs))
nearest-take zero x hs s m = inr (refl, tt)
nearest-take (suc n) x [] s m = elim m [ ]
nearest-take (suc n) x (h ∷ hs) s m = elim (Memᴰ.cases_cons m) [
  | inl e ↦ inl (Memᴰ.head e)
  | inr later ↦ elim (nearest-take n x hs s.1 later) [
    | inl there ↦ inl (Memᴰ.tail there)
    | inr full ↦
        inr (ap suc full.0, (All-Mem (λ k. h.distance ≤ k.distance) x hs s.0 later, full.1))
  ]
]
