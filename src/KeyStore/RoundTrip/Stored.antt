-- ===== src/KeyStore/RoundTrip/Stored.antt =====
-- What the store holds of a file whose blocks StoreFileLocal has stored.
use dps_files.KeyStore.Exec.{read_file, ok, system_call, write_file}
use dps_files.KeyStore.Types.Paths.{
  block-ne-metadata_path, block-ne-cache_path, get_local_block_location-injective,
}
use dps_files.KeyStore.Chunk.{resolve_chunk, load_file_reference_data, compute_chunk_key}
use dps_files.Prelude.{
  ap, sym, get_elem?, mod-eq_of_lt, ◌^◌, subst, dec_lt, some, ℕ, Bytes, ◌+◌, ◌≡◌, ◌≤◌, ◌<◌, ◌∙◌,
  zero, suc, arith, [], list_eq, nat_eq,
}
use dps_files.KeyStore.RoundTrip.Steps.{
  kept, stored_refs, disk-after_blocks_ne, index-after_blocks_ne, config-after_blocks, stored_chunk,
  after_blocks,
}
use dps_files.KeyStore.Stream.{load_block}
use dps_files.KeyStore.Types.{
  FilePath, metadata_path, cache_path_for_hash, uint32, File, KeyStoreConfig, ChunkLoc,
  get_local_block_location, Platform, MetaData, Store,
}
use dps_files.Prelude.Map.{lookup-insert_ne, Map, insert, lookup-insert, lookup}
use dps_files.KeyStore.Index.{file_to_memory, index_references, track}
use dps_files.KeyStore.Files.{commit_file, block_data, new_block}

module _ (P : Platform) (md : MetaData) (bytes : Bytes) where
  -- SHA-1 keeps the keys of the file's chunks apart.
  abbrev pub KeysDistinct : Type 0
  KeysDistinct =
      (i j : ℕ)
      → i < md.total_blocks
      → j < md.total_blocks
      → compute_chunk_key P md.file_hash i ≡ compute_chunk_key P md.file_hash j
      → i ≡ j

  -- Block i is on disk and indexed.
  pub record HasBlock (s : Store) (i : ℕ) : Type 0 where
    pub indexed :
        lookup (compute_chunk_key P md.file_hash i) s.chunk_index
        ≡ some (record { file_hash = md.file_hash; chunk_index = i })
    pub on_disk :
        lookup (get_local_block_location s.config (compute_chunk_key P md.file_hash i)) s.disk
        ≡ some (block_data md bytes i)

  stored_chunk-HasBlock :
      (blocks i : ℕ) (s : Store)
      → KeysDistinct
      → suc i + blocks ≤ md.total_blocks
      → HasBlock
          (after_blocks P md bytes blocks
            (suc i)
            (stored_chunk (new_block P md i (block_data md bytes i)) (block_data md bytes i) s))
          i
  unfolding new_block
  stored_chunk-HasBlock blocks i s d t =
      let key = compute_chunk_key P md.file_hash i in
      let next =
        stored_chunk (new_block P md i (block_data md bytes i)) (block_data md bytes i) s in
      let loc : ChunkLoc = record { file_hash = md.file_hash; chunk_index = i } in
      let path = get_local_block_location s.config key in
      let c = config-after_blocks P md bytes blocks (suc i) next in
      record {
        indexed =
            index-after_blocks_ne P md bytes blocks (suc i) next key
              (λ j a b e. absurd (omega (arith, d j i (omega arith) (omega arith) e)))
            ∙ ground (arith, lookup-insert key key loc s.chunk_index);
        on_disk = rw c (
            disk-after_blocks_ne P md bytes blocks (suc i) next path (λ j a b e. absurd (
              omega (
                arith,
                d j i (omega arith) (omega arith)
                    (get_local_block_location-injective s.config _ _ e),
              )))
            ∙ ground (arith, lookup-insert path path (block_data md bytes i) s.disk));
      }

  pub after_blocks-HasBlock :
      (blocks i : ℕ) (s : Store)
      → KeysDistinct
      → i + blocks ≤ md.total_blocks
      → (j : ℕ) → i ≤ j
      → j < i + blocks
      → HasBlock (after_blocks P md bytes blocks i s) j
  unfolding new_block
  after_blocks-HasBlock zero i s d t j a b = absurd (omega arith)
  after_blocks-HasBlock (suc blocks) i s d t j a b = elim (dec_lt i j) [
    | yes l ↦ after_blocks-HasBlock blocks (suc i) _ d (omega arith) j (omega arith) (omega arith)
    | no l ↦
        let e : i ≡ j = omega arith in
        subst (λ (k : ℕ). HasBlock (after_blocks P md bytes (suc blocks) i s) k) e
          (stored_chunk-HasBlock blocks i s d (omega arith))
  ]

  -- Entering the references again changes none of their entries.
  index_references-keeps :
      (c : KeyStoreConfig) (blocks i : ℕ) (m : Map Bytes ChunkLoc) (j : ℕ)
      → KeysDistinct
      → md.total_blocks ≤ 2 ^ 32
      → i + blocks ≤ md.total_blocks
      → j < md.total_blocks
      → lookup (compute_chunk_key P md.file_hash j) m
        ≡ some (record { file_hash = md.file_hash; chunk_index = j })
      → lookup
          (compute_chunk_key P md.file_hash j)
          (index_references md.file_hash i (stored_refs P md bytes c blocks i) m)
        ≡ some (record { file_hash = md.file_hash; chunk_index = j })
  unfolding index_references new_block
  index_references-keeps c zero i m j d w t b h = h
  index_references-keeps c (suc blocks) i m j d w t b h =
      index_references-keeps c blocks (suc i) _ j d w (omega arith) b (
        ground (
          arith,
          lookup-insert (compute_chunk_key P md.file_hash j) (compute_chunk_key P md.file_hash i)
              (record { file_hash = md.file_hash; chunk_index = uint32 i }) m,
          d i j (omega arith) b,
          mod-eq_of_lt {n = i} {m = 2 ^ 32} (omega arith),
        ))

  abbrev pub stored_file : KeyStoreConfig → File
  stored_file c = record { meta_data = md; references = stored_refs P md bytes c md.total_blocks 0 }

  abbrev pub committed : Store → Store
  committed s = record (track (stored_file s.config) s) {
    disk =
        insert (cache_path_for_hash s.config md.file_hash) (P.encode_file (stored_file s.config)) (
          insert (metadata_path s.config md.file_hash) (P.encode_file (stored_file s.config))
            s.disk);
  }

  pub commit_file_lem :
      (s : Store)
      → s.faults ≡ []
      → commit_file P (stored_file s.config) s ≡ (ok (stored_file s.config), committed s)
  unfolding commit_file file_to_memory write_file system_call
  commit_file_lem s f = ground arith

  -- What reading the file back needs.
  pub record Holds (file : File) (s : Store) : Type 0 where
    pub known : lookup md.file_hash s.files ≡ some file
    pub blocks : (j : ℕ) → j < md.total_blocks → HasBlock s j
    pub faultless : s.faults ≡ []

  pub committed-Holds :
      (s : Store)
      → KeysDistinct
      → md.total_blocks ≤ 2 ^ 32
      → s.faults ≡ []
      → ((j : ℕ) → j < md.total_blocks → HasBlock s j)
      → Holds (stored_file s.config) (committed s)
  unfolding track
  committed-Holds s d w f h = record {
    known = ground (arith, lookup-insert md.file_hash md.file_hash (stored_file s.config) s.files);
    blocks = λ j b. record {
      indexed =
          index_references-keeps s.config md.total_blocks 0 s.chunk_index j d w (omega arith) b
            (h j b).indexed;
      on_disk =
          lookup-insert_ne _ _ _ _ (λ e.
            block-ne-cache_path s.config (compute_chunk_key P md.file_hash j) md.file_hash (sym e))
          ∙ lookup-insert_ne _ _ _ s.disk (λ e.
            block-ne-metadata_path s.config (compute_chunk_key P md.file_hash j) md.file_hash
              (sym e))
          ∙ (h j b).on_disk;
    };
    faultless = f;
  }

  -- A change of the disk that leaves the chunks alone.
  pub Holds-disk :
      (file : File) (s : Store) (disk : Map FilePath Bytes)
      → ((key : Bytes)
          → lookup (get_local_block_location s.config key) disk
            ≡ lookup (get_local_block_location s.config key) s.disk)
      → Holds file s
      → Holds file (record s { disk = disk })
  Holds-disk file s disk same h = record {
    known = h.known;
    blocks = λ j b. record {
      indexed = (h.blocks j b).indexed;
      on_disk = same (compute_chunk_key P md.file_hash j) ∙ (h.blocks j b).on_disk;
    };
    faultless = h.faultless;
  }

  pub get_elem?-stored_refs :
      (c : KeyStoreConfig) (blocks i j : ℕ)
      → j < blocks
      → get_elem? (stored_refs P md bytes c blocks i) j ≡ some (some (kept P md bytes c (i + j)))
  get_elem?-stored_refs c zero i j h = absurd (omega arith)
  get_elem?-stored_refs c (suc blocks) i zero h =
      ap (λ (k : ℕ). some (some (kept P md bytes c k))) (omega arith)
  get_elem?-stored_refs c (suc blocks) i (suc j) h =
      get_elem?-stored_refs c blocks (suc i) j (omega arith)
      ∙ ap (λ (k : ℕ). some (some (kept P md bytes c k))) (omega arith)

  -- Each block of a file that is held loads.
  pub load_block_lem :
      (s : Store) (j : ℕ)
      → Holds (stored_file s.config) s
      → j < md.total_blocks
      → load_block P (some (kept P md bytes s.config j)) s ≡ (ok (block_data md bytes j), s)
  unfolding load_block load_file_reference_data resolve_chunk new_block read_file system_call
  load_block_lem s j h b =
      let hb = h.blocks j b in
      ground (
        arith,
        hb.indexed,
        hb.on_disk,
        h.known,
        h.faultless,
        get_elem?-stored_refs s.config md.total_blocks 0 j b,
      )
