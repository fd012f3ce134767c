-- ===== src/KeyStore/RoundTrip/Laws.antt =====
-- StoreFileLocal and then the reading methods.
use dps_files.KeyStore.Types.{
  KeyStoreConfig, intent_path, FilePath, File, Platform, MetaData, Store,
}
use dps_files.KeyStore.RoundTrip.Steps.{
  config-after_blocks, clock-after_blocks, faults-after_blocks,
}
use dps_files.KeyStore.Index.{
  get_file_by_name, file_from_memory, is_expired, existing_file_by_hash, track,
}
use dps_files.KeyStore.RoundTrip.Reassembly.{reassemble_all}
use dps_files.Prelude.{
  ◌*◌, ◌-◌, mod-eq_of_lt, false, ap, some, dec_lt, length, none, Bytes, refl, sym, ◌+◌, ◌/◌, ◌^◌,
  ◌≡◌, ◌≤◌, ◌<◌, ◌∙◌, arith, [], list_eq, nat_eq,
}
use dps_files.KeyStore.Stream.{reassemble_file_to_bytes, buffer, stream_file}
use dps_files.KeyStore.RoundTrip.Commit.{
  joined_all, stream_blocks_lem, clear_intent_lem, stored-Holds, stored, store_and_commit_lem,
  write_intent_lem, Fits,
}
use dps_files.Prelude.Map.{lookup-insert_self, lookup-erase_ne, erase, Map, lookup}
use dps_files.KeyStore.Types.Paths.{block-ne-intent_path}
use dps_files.KeyStore.RoundTrip.Stored.{Holds-disk, stored_file, Holds, KeysDistinct}
use dps_files.KeyStore.BlockSize.Bounds.{
  calculate_block_size-zero, count_blocks-lt, calculate_block_size_bounds, count_blocks_exact,
}
use dps_files.KeyStore.BlockSize.{calculate_block_size, prepare_meta_data}
use dps_files.KeyStore.Files.{store_file_local, local_meta_data}
use dps_files.KeyStore.Exec.{ok}
use dps_files.KeyStore.Cache.{ensure_hash_not_cached}

module _ (P : Platform) (name bytes : Bytes) (s : Store) where
  abbrev pub md : MetaData
  md = local_meta_data P name bytes s

  pub local_meta_data-Fits : length bytes ≤ 2 ^ 53 → Fits P md bytes
  unfolding local_meta_data prepare_meta_data
  local_meta_data-Fits h = elim (dec_lt 0 (length bytes)) [
    | yes p ↦
        let (cover, _, _) = count_blocks_exact (length bytes) p h in
        let (_, most, _, _) = calculate_block_size_bounds (length bytes) p in
        record {
          whole = refl;
          covered = cover;
          narrow = omega arith;
          few = omega (arith, count_blocks-lt (length bytes) (calculate_block_size (length bytes)));
        }
    | no p ↦
        let z : length bytes ≡ 0 = omega arith in
        let e = ap calculate_block_size z ∙ calculate_block_size-zero in
        record {
          whole = refl;
          covered = omega arith;
          narrow = omega arith;
          few = omega (arith, count_blocks-lt (length bytes) (calculate_block_size (length bytes)));
        }
  ]

  -- What a store needs: no call fails, the file is neither known nor cached, and it will not expire
  -- at once.
  pub record CanStore : Type 0 where
    pub faultless : s.faults ≡ []
    pub unknown : lookup (P.sha256 bytes) s.files ≡ none
    pub uncached : ensure_hash_not_cached P (P.sha256 bytes) s ≡ (ok tt, s)
    pub fits : length bytes ≤ 2 ^ 53
    pub distinct : KeysDistinct P md bytes
    pub lives : s.clock / 10 ^ 9 + s.config.default_ttl_seconds < 2 ^ 63

  -- The state in which a stored file is held under its hash and its name.
  pub record IsStored (t : Store) : Type 0 where
    pub holds : Holds P md bytes (stored_file P md bytes t.config) t
    pub named : lookup name t.files_by_name ≡ some (P.sha256 bytes)
    pub same_clock : t.clock ≡ s.clock

  -- The state after the store; `disk` is the disk with the intent.
  abbrev pub stored_from : Map FilePath Bytes → Store
  stored_from disk =
      let t = stored P md bytes (record s { disk = disk }) in
      record t { disk = erase (intent_path t.config (P.sha256 bytes)) t.disk }

  pub existing_none :
      (key : Bytes) → lookup key s.files ≡ none → existing_file_by_hash P key s ≡ (ok none, s)
  unfolding existing_file_by_hash
  existing_none key h = ground arith

  pub store_file_local-eq :
      (random : Bytes)
      → CanStore
      → (disk : Map FilePath Bytes) × (store_file_local P random name bytes s
          ≡ (ok (stored_file P md bytes s.config), stored_from disk))
  unfolding store_file_local local_meta_data track
  store_file_local-eq random can =
      let fits = local_meta_data-Fits can.fits in
      let (disk, intent) = write_intent_lem P random md s can.faultless in
      let t = record s { disk = disk } in
      let after = stored P md bytes t in
      let commit = store_and_commit_lem P md bytes t fits can.faultless in
      let still = faults-after_blocks P md bytes md.total_blocks 0 t ∙ can.faultless in
      let clear = clear_intent_lem (P.sha256 bytes) after still in
      (
        disk,
        ground (
          arith,
          existing_none (P.sha256 bytes) can.unknown,
          can.uncached,
          intent,
          commit,
          clear,
        ),
      )

  pub stored_from-IsStored : (disk : Map FilePath Bytes) → CanStore → IsStored (stored_from disk)
  unfolding track local_meta_data prepare_meta_data
  stored_from-IsStored disk can =
      let fits = local_meta_data-Fits can.fits in
      let t = record s { disk = disk } in
      let after = stored P md bytes t in
      let held = stored-Holds P md bytes t fits can.distinct can.faultless in
      record {
        holds =
            Holds-disk P md bytes _ after
              (erase (intent_path after.config (P.sha256 bytes)) after.disk)
              (λ key.
                lookup-erase_ne _ _ after.disk
                  (λ e. block-ne-intent_path after.config key (P.sha256 bytes) (sym e)))
              held;
        named = lookup-insert_self name (P.sha256 bytes) _;
        same_clock = clock-after_blocks P md bytes md.total_blocks 0 t;
      }

  -- What the reading methods find in such a state.
  abbrev pub file_in : Store → File
  file_in t = stored_file P md bytes t.config

  is_expired-stored : (t : Store) → CanStore → IsStored t → is_expired t.clock (file_in t) ≡ false
  unfolding is_expired local_meta_data prepare_meta_data
  is_expired-stored t can st = rw st.same_clock (
      ground (
        arith,
        mod-eq_of_lt {n = s.clock / 10 ^ 9 + s.config.default_ttl_seconds} {m = 2 ^ 64}
            (omega (arith, can.lives)),
        can.lives,
      ))

  pub file_from_memory-stored :
      (t : Store)
      → CanStore
      → IsStored t
      → file_from_memory (P.sha256 bytes) t ≡ (ok (file_in t), t)
  unfolding file_from_memory local_meta_data
  file_from_memory-stored t can st = ground (arith, st.holds.known, is_expired-stored t can st)

  pub stream_file-stored :
      (t : Store)
      → CanStore
      → IsStored t
      → stream_file P buffer (P.sha256 bytes) [] t ≡ ((ok tt, bytes), t)
  unfolding stream_file local_meta_data prepare_meta_data
  stream_file-stored t can st =
      let fits = local_meta_data-Fits can.fits in
      let blocks =
        stream_blocks_lem P md bytes t md.total_blocks 0 [] 0 [] st.holds (omega arith) in
      ground (arith, file_from_memory-stored t can st, blocks, joined_all P md bytes fits)

  last_block : CanStore → (md.total_blocks - 1) * md.block_size ≤ length bytes
  unfolding local_meta_data prepare_meta_data
  last_block can = elim (dec_lt 0 (length bytes)) [
    | yes p ↦ let (_, under, _) = count_blocks_exact (length bytes) p can.fits in omega arith
    | no p ↦
        let z : length bytes ≡ 0 = omega arith in
        let e = ap calculate_block_size z ∙ calculate_block_size-zero in rw e (omega arith)
  ]

  reassemble_file_to_bytes-stored :
      (t : Store)
      → CanStore
      → IsStored t
      → reassemble_file_to_bytes P (P.sha256 bytes) t ≡ (ok bytes, t)
  unfolding reassemble_file_to_bytes local_meta_data prepare_meta_data
  reassemble_file_to_bytes-stored t can st =
      let fits = local_meta_data-Fits can.fits in
      let all = reassemble_all P md bytes fits t st.holds (last_block can) in
      ground (arith, file_from_memory-stored t can st, all)

-- When no call of the operating system fails, the bytes are new (neither known nor cached), at most
-- 2 ^ 53 long, their chunks have different keys and they do not expire at once, StoreFileLocal
-- returns the file. After it, StreamFile writes exactly the bytes, ReassembleFileToBytes returns
-- them, and GetFileByName finds the file; none of the three changes the store.
pub read-store :
    (P : Platform) (random name bytes : Bytes) (s : Store)
    → CanStore P name bytes s
    → let r = store_file_local P random name bytes s in
      (r.0 ≡ ok (file_in P name bytes s r.1))
      × (stream_file P buffer (P.sha256 bytes) [] r.1 ≡ ((ok tt, bytes), r.1))
      × (reassemble_file_to_bytes P (P.sha256 bytes) r.1 ≡ (ok bytes, r.1))
      × (get_file_by_name name r.1 ≡ (ok (file_in P name bytes s r.1), r.1))
unfolding get_file_by_name track local_meta_data
read-store P random name bytes s can =
    let (disk, e) = store_file_local-eq P name bytes s random can in
    let t = stored_from P name bytes s disk in
    let st = stored_from-IsStored P name bytes s disk can in
    let same =
      config-after_blocks P (md P name bytes s) bytes (md P name bytes s).total_blocks 0
        (record s { disk = disk }) in
    rw e (
      ap (λ (c : KeyStoreConfig). ok (stored_file P (md P name bytes s) bytes c)) (sym same),
      stream_file-stored P name bytes s t can st,
      reassemble_file_to_bytes-stored P name bytes s t can st,
      ground (arith, st.named, file_from_memory-stored P name bytes s t can st),
    )
