-- ===== src/KeyStore/RoundTrip/Ranges.antt =====
-- StreamChunkRange on a file that was stored.
use dps_files.KeyStore.RoundTrip.Laws.{
  file_from_memory-stored, local_meta_data-Fits, md, CanStore, IsStored,
}
use dps_files.KeyStore.RoundTrip.Blocks.{joined-range}
use dps_files.KeyStore.BlockSize.{calculate_block_size, prepare_meta_data}
use dps_files.KeyStore.BlockSize.Bounds.{count_blocks-lt}
use dps_files.Prelude.{
  mod-eq_of_lt, ℕ, ◌-◌, ◌*◌, ◌^◌, ◌≡◌, ◌≤◌, ◌<◌, false, Bytes, [], ◌++◌, length, take, drop, arith,
}
use dps_files.KeyStore.RoundTrip.Commit.{
  length-stored_refs, range-stored_refs, stream_blocks-accept,
}
use dps_files.KeyStore.Stream.{range_end, Writer, stream_chunk_range}
use dps_files.KeyStore.Files.{local_meta_data}
use dps_files.KeyStore.Types.{Platform, Store}
use dps_files.KeyStore.Exec.{ok}

range_end_lem : (total last : ℕ) → 0 < last → last ≤ total → range_end total last ≡ last
unfolding range_end
range_end_lem total last a b = ground arith

module _ (P : Platform) (name bytes : Bytes) (s t : Store) (can : CanStore P name bytes s)
    (st : IsStored P name bytes s t) where
  abbrev pub block_size : ℕ
  block_size = (md P name bytes s).block_size

  -- The bytes of the chunks from number `first` up to `last`.
  abbrev pub chunk_bytes : ℕ → ℕ → Bytes
  chunk_bytes first last = take ((last - first) * block_size) (drop (first * block_size) bytes)

  pub stream_chunk_range-stored :
      {W : Type 0} (write : Writer W) (accept : Bytes → W)
      → ((given p : Bytes)
          → write (accept given) p
            ≡ record { writer = accept (given ++ p); count = length p; failed = false })
      → (first last : ℕ) → first < last
      → last ≤ (md P name bytes s).total_blocks
      → stream_chunk_range P write (P.sha256 bytes) first last (accept []) t
        ≡ ((ok (length (chunk_bytes first last)), accept (chunk_bytes first last)), t)
  unfolding stream_chunk_range local_meta_data prepare_meta_data
  stream_chunk_range-stored write accept takes first last a b =
      let m = md P name bytes s in
      let fits = local_meta_data-Fits P name bytes s can.fits in
      let n = last - first in
      let blocks =
        stream_blocks-accept P m bytes write accept takes t n first [] 0 [] st.holds
          (omega arith) in
      let part = range-stored_refs P m bytes t.config n first m.total_blocks (omega arith) in
      let all = length-stored_refs P m bytes t.config m.total_blocks 0 in
      let few =
        mod-eq_of_lt {n = m.total_blocks} {m = 2 ^ 32}
          (omega (arith, count_blocks-lt (length bytes) (calculate_block_size (length bytes)))) in
      let joins = joined-range m bytes fits.whole n first in
      ground (
        arith,
        file_from_memory-stored P name bytes s t can st,
        all,
        few,
        range_end_lem m.total_blocks last,
        part,
        blocks,
        joins,
      )
