-- ===== src/Enclave/EntropyRules.antt =====
-- How much entropy src/aws/src/lib.rs gathers.
use nautilus_memwal_relayer.Prelude.{
  ℕ, zero, suc, ◌+◌, ◌*◌, ◌/◌, ◌%◌, ◌≤◌, ◌<◌, ◌≡◌, refl, true, some, [], ◌++◌, ok, length,
  length-append, ltb, ltb→lt, ltb→ge, inl, inr, Bool-cases, arith,
}
use nautilus_memwal_relayer.Types.{Bytes}
use nautilus_memwal_relayer.Enclave.Entropy.{Random, fill, get_entropy}

-- The device answers every call with its whole buffer.
abbrev pub Answers : Random → Type 0
Answers random = (call : ℕ) → (buf : Bytes) × (random call ≡ some buf) × (length buf ≡ 256)

-- From `blocks` blocks on, and with fuel for what is missing and one round more
fill-enough :
    (random : Random) (size fuel call blocks : ℕ) (dest : Bytes)
    → Answers random
    → length dest ≡ 256 * blocks
    → 256 * blocks < size + 256
    → size + 256 ≤ 256 * (blocks + fuel)
    → (sample : Bytes) × (fill random size fuel call dest ≡ some (ok sample))
      × (size ≤ length sample)
      × (length sample < size + 256)
      × (length sample % 256 ≡ 0)
unfolding fill
fill-enough random size zero call blocks dest answers e low high = absurd (omega arith)
fill-enough random size (suc fuel) call blocks dest answers e low high =
    let (buf, given, long) = answers call in
    let more = length-append dest buf in
    elim (Bool-cases (ltb (length dest) size)) [
      | inr enough ↦
          let ge = ltb→ge (length dest) size enough in
          rw (enough, fill) (dest, refl, ge, omega arith, omega arith)
      | inl short ↦
          let lt = ltb→lt (length dest) size short in
          rw (short, fill, given)
            (fill-enough random size fuel (suc call) (suc blocks) (dest ++ buf) answers
              (omega arith) (omega arith) (omega arith))
    ]

-- From a device that opens and that answers every call with its whole buffer of 256 bytes, the loop
-- of `get_entropy` ends, within the rounds that the size takes and one more, and gives whole buffers:
-- as many bytes as asked for or more, by fewer than 256.
pub get_entropy-enough :
    (random : Random) (size fuel : ℕ)
    → Answers random
    → size / 256 + 2 ≤ fuel
    → (sample : Bytes) × (get_entropy true random fuel size ≡ some (ok sample))
      × (size ≤ length sample)
      × (length sample < size + 256)
      × (length sample % 256 ≡ 0)
unfolding get_entropy
get_entropy-enough random size fuel answers enough =
    fill-enough random size fuel 0 0 [] answers refl (omega arith) (omega arith)
