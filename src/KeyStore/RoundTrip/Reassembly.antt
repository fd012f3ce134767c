-- ===== src/KeyStore/RoundTrip/Reassembly.antt =====
-- The buffer of ReassembleFileToBytes in files.go.
use dps_files.KeyStore.RoundTrip.Commit.{joined_all, Fits}
use dps_files.Prelude.{
  mul-le-mul_right, le_trans, take-add, ap, drop-replicate, take_all, drop-append_at,
  take-append_at, length-drop, length-replicate, length-take, drop, length-append, replicate,
  length, take, ℕ, Bytes, ◌+◌, ◌-◌, ◌*◌, ◌≡◌, ◌≤◌, ◌∙◌, zero, suc, arith, ◌++◌, list_eq, nat_eq,
}
use mathlib.Core.List.{append-nil, append_assoc}
use dps_files.KeyStore.RoundTrip.Stored.{load_block_lem, stored_file, Holds}
use dps_files.KeyStore.RoundTrip.Blocks.{block_data_lem, joined}
use dps_files.KeyStore.Files.{block_data}
use dps_files.KeyStore.Exec.{ok}
use dps_files.KeyStore.RoundTrip.Steps.{stored_refs}
use dps_files.KeyStore.Stream.{reassemble_blocks, copy_at}
use dps_files.KeyStore.Types.{Platform, MetaData, Store}

-- The buffer when the first `n` bytes are in place.
abbrev filled : Bytes → ℕ → Bytes
filled bytes n = take n bytes ++ replicate (length bytes - n) 0

copy_at-filled :
    (bytes : Bytes) (start block : ℕ)
    → start ≤ length bytes
    → copy_at start (take block (drop start bytes)) (filled bytes start)
      ≡ filled bytes (start + block)
unfolding copy_at
copy_at-filled bytes start block h =
    let src = take block (drop start bytes) in
    let zeros = replicate {A = ℕ} (length bytes - start) 0 in
    let front : start ≡ length (take start bytes) = omega (arith, length-take start bytes) in
    let size = length-take block (drop start bytes) in
    let left = length-drop start bytes in
    rw
      (
        take-append_at start (take start bytes) zeros front,
        drop-append_at start (take start bytes) zeros front,
        length-replicate {A = ℕ} (length bytes - start) 0,
        take_all (length bytes - start) src (omega (arith, size, left)),
        drop-replicate {A = ℕ} (length src) (length bytes - start) 0,
        take-add start block bytes,
        append_assoc (take start bytes) src (replicate (length bytes - (start + block)) 0),
      )
      (ap (λ (k : ℕ). take start bytes ++ (src ++ replicate k 0)) (omega (arith, size, left)))

length-filled : (bytes : Bytes) (n : ℕ) → length (filled bytes n) ≡ length bytes
length-filled bytes n = omega (
  arith,
  length-append (take n bytes) (replicate (length bytes - n) 0),
  length-take n bytes,
  length-replicate {A = ℕ} (length bytes - n) 0,
)

module _ (P : Platform) (md : MetaData) (bytes : Bytes) (fits : Fits P md bytes) where
  reassemble_blocks_lem :
      (s : Store) (blocks i written : ℕ)
      → Holds P md bytes (stored_file P md bytes s.config) s
      → i + blocks ≡ md.total_blocks
      → (md.total_blocks - 1) * md.block_size ≤ length bytes
      → reassemble_blocks P md.block_size i
          (stored_refs P md bytes s.config blocks i)
          (filled bytes (i * md.block_size))
          written
          s
        ≡ (
          ok (
            filled bytes ((i + blocks) * md.block_size),
            written + length (joined md bytes blocks i),
          ),
          s,
        )
  unfolding reassemble_blocks
  reassemble_blocks_lem s zero i written h b l =
      ap (λ (k : ℕ × ℕ). (ok (filled bytes k.0, k.1), s)) {x = (i * md.block_size, written)}
        {y = ((i + 0) * md.block_size, written + 0)} (ground arith)
  reassemble_blocks_lem s (suc blocks) i written h b l =
      let block = block_data md bytes i in
      let inside : i * md.block_size ≤ length bytes =
        le_trans (mul-le-mul_right i (md.total_blocks - 1) md.block_size (omega arith)) l in
      let fill =
        ap (λ (d : Bytes). copy_at (i * md.block_size) d (filled bytes (i * md.block_size)))
          (block_data_lem md bytes fits.whole i)
        ∙ copy_at-filled bytes (i * md.block_size) md.block_size inside
        ∙ ap (filled bytes) {y = suc i * md.block_size} (omega arith) in
      let ih = reassemble_blocks_lem s blocks (suc i) (written + length block) h (omega arith) l in
      ground (
        arith,
        load_block_lem P md bytes s i h (omega arith),
        fill,
        length-filled bytes (i * md.block_size),
        inside,
        ih,
        length-append block (joined md bytes blocks (suc i)),
      )

  filled_all : filled bytes (md.total_blocks * md.block_size) ≡ bytes
  filled_all =
      let c = fits.covered in
      ap (λ (t : Bytes). t ++ replicate (length bytes - md.total_blocks * md.block_size) 0)
        (take_all (md.total_blocks * md.block_size) bytes c)
      ∙ ap (λ (k : ℕ). bytes ++ replicate k 0) {y = 0} (omega arith)
      ∙ append-nil bytes

  -- From an empty buffer all blocks give the file.
  pub reassemble_all :
      (s : Store)
      → Holds P md bytes (stored_file P md bytes s.config) s
      → (md.total_blocks - 1) * md.block_size ≤ length bytes
      → reassemble_blocks P md.block_size 0
          (stored_refs P md bytes s.config md.total_blocks 0)
          (replicate (length bytes) 0)
          0
          s
        ≡ (ok (bytes, length bytes), s)
  reassemble_all s h l =
      let start =
        ap (filled bytes) {x = 0 * md.block_size} {y = 0} (omega arith)
        ∙ ap (λ (k : ℕ). replicate {A = ℕ} k 0) {x = length bytes - 0} {y = length bytes}
            (omega arith) in
      let stop =
        ap (filled bytes) {x = (0 + md.total_blocks) * md.block_size}
          {y = md.total_blocks * md.block_size} (omega arith)
        ∙ filled_all in
      ground (
        arith,
        reassemble_blocks_lem s md.total_blocks 0 0 h (omega arith) l,
        start,
        stop,
        joined_all P md bytes fits,
      )
