-- ===== src/KeyStore/RoundTrip/Blocks.antt =====
-- The blocks that StoreFileLocal of files.go cuts, put together.
use dps_files.Prelude.{
  take-add, dec_le, ℕ, zero, suc, ◌+◌, ◌-◌, ◌*◌, ◌≤◌, ◌≡◌, sym, ap, ◌∙◌, min, Bytes, [], ◌++◌,
  length, take, drop, length-take, length-drop, take_all, drop_all, drop-drop, take-append-drop,
  arith,
}
use dps_files.KeyStore.Types.{MetaData}
use dps_files.KeyStore.Files.{block_data}

-- The blocks from number i on, `blocks` of them, one after the other.
abbrev pub joined : MetaData → Bytes → ℕ → ℕ → Bytes
joined md bytes zero i = []
joined md bytes (suc blocks) i = block_data md bytes i ++ joined md bytes blocks (suc i)

take-min :
    (start block : ℕ) (bytes : Bytes)
    → take (min (start + block) (length bytes) - start) (drop start bytes)
      ≡ take block (drop start bytes)
take-min start block bytes = elim (dec_le (start + block) (length bytes)) [
  | yes h ↦ ap (λ (k : ℕ). take k (drop start bytes)) (omega arith)
  | no h ↦
      take_all _ (drop start bytes) (omega (arith, length-drop start bytes))
      ∙ sym (take_all block (drop start bytes) (omega (arith, length-drop start bytes)))
]

module _ (md : MetaData) (bytes : Bytes) (whole : md.total_size ≡ length bytes) where
  pub block_data_lem :
      (i : ℕ) → block_data md bytes i ≡ take md.block_size (drop (i * md.block_size) bytes)
  unfolding block_data
  block_data_lem i = rw whole (take-min (i * md.block_size) md.block_size bytes)

  pub length-block_data-le : (i : ℕ) → length (block_data md bytes i) ≤ md.block_size
  length-block_data-le i =
      rw block_data_lem (omega (arith, length-take md.block_size (drop (i * md.block_size) bytes)))

  -- Blocks that cover the rest of the file join to it.
  pub joined-eq-drop :
      (blocks i : ℕ)
      → length bytes ≤ (i + blocks) * md.block_size
      → joined md bytes blocks i ≡ drop (i * md.block_size) bytes
  joined-eq-drop zero i h = sym (drop_all (i * md.block_size) bytes (omega arith))
  joined-eq-drop (suc blocks) i h =
      let next : suc i * md.block_size ≡ i * md.block_size + md.block_size = omega arith in
      rw (joined-eq-drop blocks (suc i) (omega arith), block_data_lem i, next)
        (rw (← drop-drop md.block_size (i * md.block_size) bytes) (take-append-drop _ _))

  -- Any blocks in a row join to a part of the file.
  pub joined-range :
      (blocks i : ℕ)
      → joined md bytes blocks i ≡ take (blocks * md.block_size) (drop (i * md.block_size) bytes)
  joined-range zero i =
      ap (λ (k : ℕ). take k (drop (i * md.block_size) bytes)) {x = 0} {y = 0 * md.block_size}
        (omega arith)
  joined-range (suc blocks) i =
      let rest = drop (i * md.block_size) bytes in
      let next : suc i * md.block_size ≡ i * md.block_size + md.block_size = omega arith in
      let all : suc blocks * md.block_size ≡ md.block_size + blocks * md.block_size = omega arith in
      rw (joined-range blocks (suc i), block_data_lem i, next, all)
        (rw (← drop-drop md.block_size (i * md.block_size) bytes)
          (sym (take-add md.block_size (blocks * md.block_size) rest)))
