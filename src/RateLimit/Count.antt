-- ===== src/RateLimit/Count.antt =====
-- Counting in one sorted set: what the pruning and the ZADDs of src/relayer/src/rate_limit.rs do to
-- the number of its members.
use nautilus_memwal_relayer.Prelude.{
  ℕ, zero, suc, ◌+◌, ◌≤◌, ◌<◌, ◌≡◌, refl, ap, ◌∙◌, true, List, length, any, nat_eq, Bool-cases, inl,
  inr, arith, nat_eq_iff, leb, leb→le, leb→gt, if◌then◌else◌,
}
use nautilus_memwal_relayer.Redis.{zadd}
use nautilus_memwal_relayer.RateLimit.Window.{add_scores}

length-zadd-le : (s : ℕ) (scores : List ℕ) → length (zadd s scores) ≤ length scores + 1
length-zadd-le s scores = ground arith

pub length-add_scores-le :
    (base weight : ℕ) (scores : List ℕ)
    → length (add_scores base weight scores) ≤ length scores + weight
unfolding add_scores
length-add_scores-le base zero scores = omega arith
length-add_scores-le base (suc i) scores = omega (
  arith,
  length-zadd-le (base + i) (add_scores base i scores),
  length-add_scores-le base i scores,
)

-- A member stays a member when more are added.
any-zadd :
    (s t : ℕ) (scores : List ℕ)
    → any (λ u. nat_eq u s) scores ≡ true
    → any (λ u. nat_eq u s) (zadd t scores) ≡ true
any-zadd s t scores h = ground arith

any-zadd_self : (s : ℕ) (scores : List ℕ) → any (λ u. nat_eq u s) (zadd s scores) ≡ true
any-zadd_self s scores = ground arith

any-add_scores :
    (s base weight : ℕ) (scores : List ℕ)
    → any (λ u. nat_eq u s) scores ≡ true
    → any (λ u. nat_eq u s) (add_scores base weight scores) ≡ true
unfolding add_scores
any-add_scores s base zero scores h = h
any-add_scores s base (suc i) scores h =
    any-zadd s (base + i) (add_scores base i scores) (any-add_scores s base i scores h)

any-added :
    (i base weight : ℕ) (scores : List ℕ)
    → i < weight
    → any (λ u. nat_eq u (base + i)) (add_scores base weight scores) ≡ true
unfolding add_scores
any-added i base zero scores h = elim h [ ]
any-added i base (suc k) scores h = elim (Bool-cases (nat_eq i k)) [
  | inl e ↦ rw ((nat_eq_iff i k).0 e) (any-zadd_self (base + k) (add_scores base k scores))
  | inr e ↦
      any-zadd (base + i) (base + k) (add_scores base k scores)
        (any-added i base k scores (ground arith))
]

zadd_member :
    (s : ℕ) (scores : List ℕ) → any (λ u. nat_eq u s) scores ≡ true → zadd s scores ≡ scores
zadd_member s scores h = rw h

-- Adding scores that are all there changes nothing.
add_scores_present :
    (base weight k : ℕ) (scores : List ℕ)
    → k ≤ weight
    → add_scores base k (add_scores base weight scores) ≡ add_scores base weight scores
unfolding add_scores
add_scores_present base weight zero scores h = refl
add_scores_present base weight (suc k) scores h =
    ap (zadd (base + k)) (add_scores_present base weight k scores (omega arith))
    ∙ zadd_member (base + k) (add_scores base weight scores)
        (any-added k base weight scores (omega arith))

pub add_scores_again :
    (base weight k : ℕ) (scores : List ℕ)
    → k ≤ weight
    → add_scores base k (add_scores base weight scores) ≡ add_scores base weight scores
add_scores_again = add_scores_present

-- The greater of two weights
abbrev pub larger : ℕ → ℕ → ℕ
larger a b = if leb b a then a else b

-- Scores of one base added twice are those of the greater weight added once.
pub add_scores_twice :
    (base a b : ℕ) (scores : List ℕ)
    → add_scores base b (add_scores base a scores) ≡ add_scores base (larger a b) scores
unfolding add_scores
add_scores_twice base a zero scores =
    let whole : a ≡ larger a 0 = ground arith in ap (λ n. add_scores base n scores) whole
add_scores_twice base a (suc b) scores = elim (Bool-cases (leb (suc b) a)) [
  | inl covered ↦ rw covered (add_scores_again base a (suc b) scores (leb→le (suc b) a covered))
  | inr beyond ↦
      let below = leb→gt (suc b) a beyond in
      rw beyond (
        ap (zadd (base + b))
          (add_scores_twice base a b scores ∙ ap (λ n. add_scores base n scores) (top a b below)))
]
  where
    top : (a b : ℕ) → a < suc b → larger a b ≡ b
    top a b lt = ground arith
