-- ===== src/KeyStore/RoundTrip/Steps.antt =====
-- What storing blocks does when no call of the operating system fails.
use dps_files.Prelude.{
  refl, ◌∙◌, sym, ap, ◌++◌, ◌+◌, zero, ◌∷◌, some, Option, List, suc, ◌≢◌, ◌≤◌, ◌<◌, ℕ, true, [],
  Bytes, length, text, eqb, list_eq, nat_eq, ◌≡◌, arith,
}
use dps_files.Prelude.Map.{lookup, insert, lookup-insert}
use dps_files.KeyStore.Chunk.{compute_chunk_key, store_file_reference}
use dps_files.KeyStore.Files.{block_data, new_block, store_blocks}
use dps_files.KeyStore.Types.{
  FilePath, MetaData, Store, Platform, FileReference, ChunkLoc, KeyStoreConfig, uint32,
  get_local_block_location,
}
use mathlib.Core.List.{append-nil, append_assoc}
use dps_files.KeyStore.Exec.{ok, system_call, write_file, read_file}

abbrev pub chunk_loc : FileReference → ChunkLoc
chunk_loc ref = record { file_hash = ref.parent; chunk_index = ref.file_index }

-- The state after one chunk was stored.
abbrev pub stored_chunk : FileReference → Bytes → Store → Store
stored_chunk ref bytes s = record s {
  disk = insert (get_local_block_location s.config ref.key) bytes s.disk;
  chunk_index = insert ref.key (chunk_loc ref) s.chunk_index;
}

-- The reference with what StoreFileReference sets on it.
abbrev pub located : KeyStoreConfig → FileReference → FileReference
located c ref = record ref { location = get_local_block_location c ref.key; protocol = text "file" }

eqb_refl : (n : ℕ) → eqb n n ≡ true
eqb_refl n = ground arith

module _ (P : Platform) where
  -- A chunk with the right size and hash is written, read back if so configured, and indexed.
  pub store_file_reference_lem :
      (ref : FileReference) (bytes : Bytes) (s : Store)
      → s.faults ≡ []
      → ref.size ≡ uint32 (length bytes)
      → ref.data_hash ≡ P.sha256 bytes
      → store_file_reference P ref bytes s ≡ (ok (located s.config ref), stored_chunk ref bytes s)
  unfolding store_file_reference system_call write_file read_file
  store_file_reference_lem ref bytes s f z d =
      let path = get_local_block_location s.config ref.key in
      ground (arith, lookup-insert path path bytes s.disk)

  module _ (md : MetaData) (bytes : Bytes) where
    -- The reference of block i as the store keeps it.
    abbrev pub kept : KeyStoreConfig → ℕ → FileReference
    kept c i = located c (new_block P md i (block_data md bytes i))

    -- The references that storing `blocks` blocks from number i on gives.
    abbrev pub stored_refs : KeyStoreConfig → ℕ → ℕ → List (Option FileReference)
    stored_refs c zero i = []
    stored_refs c (suc blocks) i = some (kept c i) ∷ stored_refs c blocks (suc i)

    abbrev pub after_blocks : ℕ → ℕ → Store → Store
    after_blocks zero i s = s
    after_blocks (suc blocks) i s =
        after_blocks blocks (suc i)
          (stored_chunk (new_block P md i (block_data md bytes i)) (block_data md bytes i) s)

    pub store_blocks_lem :
        (blocks i : ℕ) (refs : List (Option FileReference)) (s : Store)
        → s.faults ≡ []
        → store_blocks P md bytes blocks i refs s
          ≡ (ok (refs ++ stored_refs s.config blocks i), after_blocks blocks i s)
    unfolding store_blocks new_block
    store_blocks_lem zero i refs s f = ap (λ r. (ok r, s)) (sym (append-nil refs))
    store_blocks_lem (suc blocks) i refs s f =
        let block = block_data md bytes i in
        let ref = new_block P md i block in
        rw (store_file_reference_lem ref block s f refl refl) (
          store_blocks_lem blocks (suc i) (refs ++ some (kept s.config i) ∷ [])
            (stored_chunk ref block s) f
          ∙ ap (λ r. (ok r, after_blocks blocks (suc i) (stored_chunk ref block s)))
              (append_assoc refs (some (kept s.config i) ∷ [])
                (stored_refs s.config blocks (suc i))))

    pub config-after_blocks :
        (blocks i : ℕ) (s : Store) → (after_blocks blocks i s).config ≡ s.config
    config-after_blocks zero i s = refl
    config-after_blocks (suc blocks) i s = config-after_blocks blocks (suc i) _

    pub faults-after_blocks :
        (blocks i : ℕ) (s : Store) → (after_blocks blocks i s).faults ≡ s.faults
    faults-after_blocks zero i s = refl
    faults-after_blocks (suc blocks) i s = faults-after_blocks blocks (suc i) _

    pub clock-after_blocks : (blocks i : ℕ) (s : Store) → (after_blocks blocks i s).clock ≡ s.clock
    clock-after_blocks zero i s = refl
    clock-after_blocks (suc blocks) i s = clock-after_blocks blocks (suc i) _

    pub files-after_blocks : (blocks i : ℕ) (s : Store) → (after_blocks blocks i s).files ≡ s.files
    files-after_blocks zero i s = refl
    files-after_blocks (suc blocks) i s = files-after_blocks blocks (suc i) _

    -- A key of no block among them keeps its data: stated for the path that a chunk has on disk.
    pub disk-after_blocks_ne :
        (blocks i : ℕ) (s : Store) (path : FilePath)
        → ((j : ℕ)
            → i ≤ j
            → j < i + blocks
            → get_local_block_location s.config (compute_chunk_key P md.file_hash j) ≢ path)
        → lookup path (after_blocks blocks i s).disk ≡ lookup path s.disk
    unfolding new_block
    disk-after_blocks_ne zero i s path h = refl
    disk-after_blocks_ne (suc blocks) i s path h =
        disk-after_blocks_ne blocks (suc i) _ path (λ j a b. h j (omega arith) (omega arith))
        ∙ ground (
          arith,
          lookup-insert path
              (get_local_block_location s.config (compute_chunk_key P md.file_hash i))
              (block_data md bytes i) s.disk,
          h i (omega arith) (omega arith),
        )

    pub index-after_blocks_ne :
        (blocks i : ℕ) (s : Store) (key : Bytes)
        → ((j : ℕ) → i ≤ j → j < i + blocks → compute_chunk_key P md.file_hash j ≢ key)
        → lookup key (after_blocks blocks i s).chunk_index ≡ lookup key s.chunk_index
    unfolding new_block
    index-after_blocks_ne zero i s key h = refl
    index-after_blocks_ne (suc blocks) i s key h =
        index-after_blocks_ne blocks (suc i) _ key (λ j a b. h j (omega arith) (omega arith))
        ∙ ground (
          arith,
          lookup-insert key (compute_chunk_key P md.file_hash i)
              (chunk_loc (new_block P md i (block_data md bytes i))) s.chunk_index,
          h i (omega arith) (omega arith),
        )
