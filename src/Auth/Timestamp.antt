-- ===== src/Auth/Timestamp.antt =====
-- The timestamp of a signed request (src/relayer/src/auth.rs): the age with
-- `checked_sub`, and the window of five minutes on either side.
use nautilus_memwal_relayer.Prelude.{ℕ, ◌+◌, ◌-◌, ◌^◌, Bool, ◌&&◌, leb, ltb, if◌then◌else◌}
use nautilus_memwal_relayer.Prelude.Int.{ℤ, pos, negsuc, sub_ℕ, pos_part, neg_part, leb_ℤ}

abbrev i64_max : ℤ
i64_max = pos (2 ^ 63 - 1)

abbrev fits_i64 : ℤ → Bool
fits_i64 a = leb (neg_part a) (2 ^ 63) && ltb (pos_part a) (2 ^ 63)

-- `now.checked_sub(timestamp).unwrap_or(i64::MAX)`
unfoldable pub age_of : ℕ → ℤ → ℤ
age_of now timestamp =
    let difference = sub_ℕ (now + neg_part timestamp) (pos_part timestamp) in
    if fits_i64 difference then difference else i64_max

-- `(-300..=300).contains(&age)`
unfoldable pub in_time : ℤ → Bool
in_time age = leb_ℤ (negsuc 299) age && leb_ℤ age (pos 300)
