-- ===== src/RateLimit/Expiry.antt =====
-- The expiry that src/relayer/src/rate_limit.rs sets on a window, and recordings at one millisecond.
use nautilus_memwal_relayer.Prelude.{
  ℕ, zero, suc, ◌+◌, ◌*◌, ◌≤◌, ◌<◌, ◌≡◌, sym, false, not, List, String, any, leb, nat_eq,
  if◌then◌else◌, retain-eq-nil, All, All-retain, All-weaken, Bool-cases, inl, inr, le→leb, eq_refl,
  arith,
}
use nautilus_memwal_relayer.Redis.{Redis, Window, live_window, prune, zadd}
use nautilus_memwal_relayer.RateLimit.Window.{prune_and_count, add_scores, add_and_expire}
use nautilus_memwal_relayer.RateLimit.Count.{add_scores_twice}

-- Every score is `slack` milliseconds out of the window of `span` milliseconds by the time that
-- the key expires.
abbrev pub IsTimely : ℕ → ℕ → Window → Type 0
IsTimely span slack w = All (λ s. s + (span + slack) * 1000 ≤ w.expires_at * 1000) w.scores

-- An expired window counts for nothing: as many entries are counted as if keys never expired. The
-- clock of Redis may be ahead of the relayer's by the slack.
pub prune-live_window :
    (span slack now at : ℕ) (w : Window)
    → IsTimely span slack w
    → at ≤ now + slack
    → prune (now * 1000) (span * 1000) (live_window at w).scores
      ≡ prune (now * 1000) (span * 1000) w.scores
prune-live_window span slack now at w timely skew = elim (Bool-cases (leb at w.expires_at)) [
  | inl live ↦ rw live
  | inr gone ↦ rw gone (
      sym (
        retain-eq-nil (λ s. not (leb (s + span * 1000) (now * 1000))) w.scores
          (All-weaken (λ s. s + (span + slack) * 1000 ≤ w.expires_at * 1000)
            (λ s. not (leb (s + span * 1000) (now * 1000)) ≡ false) w.scores
            (λ s old. out s old gone) timely)))
]
  where
    out :
        (s : ℕ)
        → s + (span + slack) * 1000 ≤ w.expires_at * 1000
        → leb at w.expires_at ≡ false
        → not (leb (s + span * 1000) (now * 1000)) ≡ false
    out s old gone = rw (le→leb (s + span * 1000) (now * 1000) (ground arith))

All-zadd : (P : ℕ → Type 0) (s : ℕ) (scores : List ℕ) → P s → All P scores → All P (zadd s scores)
All-zadd P s scores p h = elim (Bool-cases (any (λ t. nat_eq t s) scores)) [
  | inl old ↦ rw old h
  | inr new ↦ rw new (p, h)
]

All-add_scores :
    (P : ℕ → Type 0) (base weight : ℕ) (scores : List ℕ)
    → ((i : ℕ) → i < weight → P (base + i))
    → All P scores
    → All P (add_scores base weight scores)
unfolding add_scores
All-add_scores P base zero scores new h = h
All-add_scores P base (suc k) scores new h =
    All-zadd P (base + k) (add_scores base k scores) (new k (omega arith))
      (All-add_scores P base k scores (λ i lt. new i (omega arith)) h)

live-IsTimely :
    (span slack at : ℕ) (w : Window)
    → IsTimely span slack w
    → IsTimely span slack (live_window at w)
live-IsTimely span slack at w h = elim (Bool-cases (leb at w.expires_at)) [
  | inl live ↦ rw live h
  | inr gone ↦ rw gone tt
]

-- A check and a recording keep each window timely. The recording's scores lie within a millisecond of
-- the relayer's clock, which Redis's is not behind; Redis's clock has not run back past an expiry
-- set before; and the life it sets covers the span, the slack and that millisecond.
pub check-IsTimely :
    (span slack now at : ℕ) (key : String) (r : Redis)
    → IsTimely span slack (r.windows key)
    → IsTimely span slack ((prune_and_count now span key at r).1.windows key)
unfolding prune_and_count
check-IsTimely span slack now at key r timely =
    let w = live_window at (r.windows key) in
    rw (eq_refl key) (
      All-retain (λ s. s + (span + slack) * 1000 ≤ w.expires_at * 1000)
        (λ s. not (leb (s + span * 1000) (now * 1000))) w.scores
        (live-IsTimely span slack at (r.windows key) timely))

pub record-IsTimely :
    (span slack ttl now at base weight : ℕ) (key : String) (r : Redis)
    → IsTimely span slack (r.windows key)
    → (r.windows key).expires_at ≤ at + ttl * 1000
    → base + weight ≤ now * 1000 + 1000
    → now ≤ at
    → span + slack + 1 ≤ ttl * 1000
    → IsTimely span slack ((add_and_expire base weight ttl key at r).windows key)
unfolding add_and_expire
record-IsTimely span slack ttl now at base weight key r timely before fits behind covers =
    let w = live_window at (r.windows key) in
    rw (eq_refl key) (
      All-add_scores (λ s. s + (span + slack) * 1000 ≤ (at + ttl * 1000) * 1000) base weight
        w.scores (λ i lt. omega arith) older)
  where
    older :
        All
          (λ s. s + (span + slack) * 1000 ≤ (at + ttl * 1000) * 1000)
          (live_window at (r.windows key)).scores
    older = elim (Bool-cases (leb at (r.windows key).expires_at)) [
      | inl live ↦ rw live (
          All-weaken (λ s. s + (span + slack) * 1000 ≤ (r.windows key).expires_at * 1000)
            (λ s. s + (span + slack) * 1000 ≤ (at + ttl * 1000) * 1000) (r.windows key).scores
            (λ s old. omega arith) timely)
      | inr gone ↦ rw gone tt
    ]

-- Two recordings with one base, as two requests in one millisecond make on one key, if the key has not
-- expired in between: they leave the scores that one recording with the greater of their weights
-- leaves, and not as many as the two weights together.
pub record_twice :
    (base first second ttl ttl' at again : ℕ) (key : String) (r : Redis)
    → again ≤ at + ttl * 1000
    → ((add_and_expire base second ttl' key again (add_and_expire base first ttl key at r)).windows
        key).scores
      ≡ ((add_and_expire base (if leb second first then first else second) ttl key at r).windows
          key).scores
unfolding add_and_expire
record_twice base first second ttl ttl' at again key r fresh =
    rw (eq_refl key, le→leb again (at + ttl * 1000) fresh)
      (add_scores_twice base first second (live_window at (r.windows key)).scores)
