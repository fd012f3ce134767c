-- ===== src/Storage/View/LastChunk.antt =====
-- The two computations of the size of the last chunk in cmd/storage, view.go and store.go.
use dps_files.Prelude.{
  zero, suc, ℕ, Bytes, ◌≡◌, ◌<◌, ◌≤◌, ◌+◌, ◌-◌, ◌*◌, ◌/◌, ◌^◌, ◌∙◌, refl, ap, arith, length,
  length-take, length-drop, min, drop,
}
use dps_files.KeyStore.Types.{MetaData, Platform, Store}
use dps_files.KeyStore.BlockSize.{prepare_meta_data}
use dps_files.KeyStore.BlockSize.Bounds.{calculate_block_size_bounds, count_blocks_exact}
use dps_files.KeyStore.Files.{block_data, local_meta_data}
use dps_files.KeyStore.RoundTrip.Blocks.{block_data_lem}
use dps_files.Storage.View.{calculate_last_chunk_size, printed_last_chunk}

-- All blocks are the last one and those before it.
last_apart : (n size : ℕ) → 0 < n → n * size ≡ (n - 1) * size + size
last_apart zero size h = absurd (omega arith)
last_apart (suc n) size h =
    let n' : suc n - 1 ≡ n = omega arith in
    let e : suc n * size ≡ n * size + size = omega arith in rw n' e

module _ (md : MetaData) (bytes : Bytes) (whole : md.total_size ≡ length bytes) where
  length-last :
      length bytes ≤ md.total_blocks * md.block_size
      → (md.total_blocks - 1) * md.block_size < length bytes
      → 0 < md.total_blocks
      → length (block_data md bytes (md.total_blocks - 1))
        ≡ md.total_size - md.block_size * (md.total_blocks - 1)
  length-last cover under some_block =
      let before = (md.total_blocks - 1) * md.block_size in
      let all : md.total_blocks * md.block_size ≡ before + md.block_size =
        last_apart md.total_blocks md.block_size some_block in
      let e : length (block_data md bytes (md.total_blocks - 1))
          ≡ min md.block_size (length bytes - before) =
        ap length (block_data_lem md bytes whole (md.total_blocks - 1))
        ∙ length-take md.block_size (drop before bytes)
        ∙ ap (min md.block_size) (length-drop before bytes) in
      omega (arith, e, all, whole)

  calculated :
      (md.total_blocks - 1) * md.block_size < length bytes
      → 0 < md.total_blocks
      → 0 < md.block_size
      → calculate_last_chunk_size md ≡ md.total_size - md.block_size * (md.total_blocks - 1)
  unfolding calculate_last_chunk_size
  calculated under some_block size = ground (arith, whole)

  printed :
      (md.total_blocks - 1) * md.block_size < length bytes
      → length bytes ≤ 2 ^ 53
      → let full = md.block_size * (md.total_blocks - 1) in
        printed_last_chunk md ≡ md.total_size - full + full / 2 ^ 32 * 2 ^ 32
  unfolding printed_last_chunk
  printed under most = omega (arith, whole)

-- For the metadata that StoreFileLocal prepares of a file that is not empty and at most 2 ^ 53 bytes
-- long, calculateLastChunkSize gives the length of the last block; executeStoreTargets prints as much
-- more as the bytes in front of that block exceed their number modulo 2 ^ 32.
pub last_chunk_sizes :
    (P : Platform) (name bytes : Bytes) (s : Store)
    → 0 < length bytes
    → length bytes ≤ 2 ^ 53
    → let md = local_meta_data P name bytes s in
      let last = length (block_data md bytes (md.total_blocks - 1)) in
      let before = md.block_size * (md.total_blocks - 1) in
      (calculate_last_chunk_size md ≡ last)
      × (printed_last_chunk md ≡ last + before / 2 ^ 32 * 2 ^ 32)
unfolding local_meta_data prepare_meta_data
last_chunk_sizes P name bytes s pos most =
    let md = local_meta_data P name bytes s in
    let (cover, under, some_block) = count_blocks_exact (length bytes) pos most in
    let (size, _, _, _) = calculate_block_size_bounds (length bytes) pos in
    let last = length-last md bytes refl cover under some_block in
    rw last (calculated md bytes refl under some_block size, printed md bytes refl under most)
