-- ===== src/KeyStore/RoundTrip/Loading.antt =====
-- LoadAndStoreFileLocal of files.go beside StoreFileLocal.
use dps_files.KeyStore.BlockSize.{calculate_block_size, prepare_meta_data}
use dps_files.KeyStore.BlockSize.Bounds.{
  count_blocks-lt, calculate_block_size_bounds, count_blocks_exact,
}
use dps_files.KeyStore.Files.{
  local_meta_data, loaded_meta_data, load_blocks, store_blocks, load_and_commit, store_and_commit,
  block_data, new_block,
}
use dps_files.KeyStore.RoundTrip.Commit.{total_size_of-stored, Fits}
use dps_files.KeyStore.RoundTrip.Steps.{
  store_blocks_lem, located, store_file_reference_lem, stored_chunk,
}
use dps_files.Prelude.{
  inl, inr, Bool-cases, if◌then◌else◌, ℕ, zero, suc, ◌+◌, ◌-◌, ◌*◌, ◌^◌, ◌≡◌, ◌≤◌, ◌<◌, ◌∙◌, refl,
  sym, ap, Option, Bytes, List, [], ◌∷◌, ◌++◌, some, length, take, drop, min, take_all, length-take,
  length-drop, mul-le-mul_right, mod-eq_of_lt, eqb, arith,
}
use dps_files.KeyStore.Exec.{system_call}
use dps_files.KeyStore.Types.{uint32, Platform, Store, MetaData, FileReference}
use dps_files.KeyStore.RoundTrip.Blocks.{block_data_lem}

module _ (P : Platform) (md : MetaData) (bytes : Bytes) (f : Fits P md bytes) where
  -- How much of the file the blocks before number i take.
  abbrev pub offset : ℕ → ℕ
  offset i = min (i * md.block_size) (length bytes)

  abbrev wanted : ℕ → ℕ
  wanted i =
      if eqb i (md.total_blocks - 1) then uint32 (md.total_size - offset i) else md.block_size

  module _ (i : ℕ) (inside : i * md.block_size < length bytes) (b : i < md.total_blocks) where
    at_start : offset i ≡ i * md.block_size
    at_start = omega arith

    pub length-block :
        length (block_data md bytes i) ≡ min md.block_size (length bytes - i * md.block_size)
    length-block =
        ap length (block_data_lem md bytes f.whole i)
        ∙ length-take md.block_size (drop (i * md.block_size) bytes)
        ∙ ap (min md.block_size) (length-drop (i * md.block_size) bytes)

    pub wanted-block : take (wanted i) (drop (offset i) bytes) ≡ block_data md bytes i
    wanted-block = elim (Bool-cases (eqb i (md.total_blocks - 1))) [
      | inr n ↦ rw (n, at_start, block_data_lem md bytes f.whole i) refl
      | inl e ↦
          let last : md.total_blocks ≤ suc i = ground arith in
          let cover = mul-le-mul_right md.total_blocks (suc i) md.block_size last in
          let rest = length bytes - i * md.block_size in
          let left = drop (i * md.block_size) bytes in
          let short : rest ≤ md.block_size = omega (arith, f.covered, cover) in
          rw
            (
              e,
              at_start,
              block_data_lem md bytes f.whole i,
              f.whole,
              mod-eq_of_lt {n = rest} {m = 2 ^ 32} (omega (arith, f.narrow)),
            )
            (take_all rest left (omega (arith, length-drop (i * md.block_size) bytes))
              ∙ sym (
                  take_all md.block_size left
                    (omega (arith, length-drop (i * md.block_size) bytes))))
    ]

    pub next_offset : offset i + length (block_data md bytes i) ≡ offset (suc i)
    next_offset =
        let next : suc i * md.block_size ≡ i * md.block_size + md.block_size = omega arith in
        rw (length-block, next) (omega arith)

  module _ (last : (md.total_blocks - 1) * md.block_size < length bytes)
      (pos : 0 < md.block_size) where
    load_blocks-store_blocks :
        (blocks i : ℕ) (refs : List (Option FileReference)) (s : Store)
        → s.faults ≡ []
        → i + blocks ≡ md.total_blocks
        → load_blocks P md bytes blocks i (offset i) refs s
          ≡ store_blocks P md bytes blocks i refs s
    unfolding load_blocks store_blocks system_call new_block
    load_blocks-store_blocks zero i refs s n e = refl
    load_blocks-store_blocks (suc blocks) i refs s n e =
        let under = mul-le-mul_right i (md.total_blocks - 1) md.block_size (omega arith) in
        let inside : i * md.block_size < length bytes = omega arith in
        let block = block_data md bytes i in
        let ref = new_block P md i block in
        let some_bytes : 0 < length block = omega (arith, length-block i inside (omega arith)) in
        let stored = store_file_reference_lem P ref block s n refl refl in
        let rest =
          load_blocks-store_blocks blocks (suc i) (refs ++ some (located s.config ref) ∷ [])
            (stored_chunk ref block s) n (omega arith) in
        ground (
          arith,
          n,
          wanted-block i inside (omega arith),
          next_offset i inside (omega arith),
          some_bytes,
          stored,
          rest,
        )

    commits_alike :
        (s : Store) → s.faults ≡ [] → load_and_commit P md bytes s ≡ store_and_commit P md bytes s
    unfolding load_and_commit store_and_commit
    commits_alike s n =
        let none_read : offset 0 ≡ 0 = omega arith in
        let loop =
          ap (λ (k : ℕ). load_blocks P md bytes md.total_blocks 0 k [] s) (sym none_read)
          ∙ load_blocks-store_blocks md.total_blocks 0 [] s n (omega arith) in
        let stores = store_blocks_lem P md bytes md.total_blocks 0 [] s n in
        let size = total_size_of-stored P md bytes f s.config in ground (arith, loop, stores, size)

-- When no call of the operating system fails, LoadAndStoreFileLocal, which reads a file that is not empty
-- (of up to 2 ^ 53 bytes) block by block, does with the metadata that it prepares just what StoreFileLocal
-- does with the bytes cut in memory: the same result and the same store.
pub load_and_commit-eq-store_and_commit :
    (P : Platform) (name bytes : Bytes) (permissions : ℕ) (s : Store)
    → 0 < length bytes
    → length bytes ≤ 2 ^ 53
    → s.faults ≡ []
    → let md = loaded_meta_data P name permissions bytes s in
      load_and_commit P md bytes s ≡ store_and_commit P md bytes s
unfolding loaded_meta_data local_meta_data prepare_meta_data
load_and_commit-eq-store_and_commit P name bytes permissions s pos most n =
    let md = loaded_meta_data P name permissions bytes s in
    let (cover, under, _) = count_blocks_exact (length bytes) pos most in
    let (block, largest, _, _) = calculate_block_size_bounds (length bytes) pos in
    let f : Fits P md bytes = record {
      whole = refl;
      covered = cover;
      narrow = omega arith;
      few = omega (arith, count_blocks-lt (length bytes) (calculate_block_size (length bytes)));
    } in
    commits_alike P md bytes f under block s n
