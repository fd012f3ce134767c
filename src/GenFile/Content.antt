-- ===== src/GenFile/Content.antt =====
-- What the loop of cmd/gen_file writes.
use dps_files.Prelude.{
  length-append, ◌-◌, ◌++◌, inr, ◌/◌, inl, ◌^◌, ◌<◌, Bool-cases, arith, ◌+◌, ◌*◌, ◌≤◌, ◌≡◌, some,
  [], zero, suc,
}
use dps_files.GenFile.{min, eqb, generate, length, Bytes, ℕ, write_random, chunk_size}

module _ (random : (done wanted : ℕ) → Bytes)
    (fills : (done wanted : ℕ) → length (random done wanted) ≡ wanted) where
  -- The loop ends after as many rounds as the rest of the size has chunks, rounded up.
  write_random-length :
      (fuel remaining : ℕ) (file : Bytes)
      → remaining ≤ fuel * chunk_size
      → (bytes : Bytes) × (write_random random fuel remaining file ≡ some bytes)
        × (length bytes ≡ length file + remaining)
  unfolding write_random
  write_random-length zero remaining file h = (file, ground arith, omega arith)
  write_random-length (suc fuel) remaining file h = elim (Bool-cases (eqb remaining 0)) [
    | inl e ↦ (file, ground (arith, e), ground (arith, e))
    | inr e ↦
        let n = min remaining chunk_size in
        let more = file ++ random (length file) n in
        let (bytes, there, len) = write_random-length fuel (remaining - n) more (omega arith) in
        (
          bytes,
          rw (write_random, e) there,
          omega (arith, len, length-append file (random (length file) n), fills (length file) n),
        )
  ]

-- Of a size that is not negative, main's loop ends, and the file has exactly this size, if the random
-- source fills its buffer.
pub generate-length :
    (random : (done wanted : ℕ) → Bytes)
    → ((done wanted : ℕ) → length (random done wanted) ≡ wanted)
    → (size : ℕ) → size < 2 ^ 63
    → (bytes : Bytes) × (generate random size ≡ some bytes) × (length bytes ≡ size)
unfolding generate
generate-length random fills size h =
    let (bytes, there, len) =
      write_random-length random fills (size / chunk_size + 1) size [] (omega arith) in
    (bytes, ground (arith, there), omega (arith, len))
