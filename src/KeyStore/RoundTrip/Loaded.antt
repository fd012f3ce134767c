-- ===== src/KeyStore/RoundTrip/Loaded.antt =====
-- LoadAndStoreFileLocal of files.go on a new file, when no call of the operating system fails.
use dps_files.Prelude.{
  some, ℕ, Bytes, ◌≡◌, ◌<◌, ◌≤◌, ◌+◌, ◌/◌, ◌^◌, ◌∙◌, sym, arith, length, list_eq, nat_eq,
  mod-eq_of_lt,
}
use dps_files.Prelude.Map.{Map, lookup, erase, lookup-erase_ne}
use dps_files.KeyStore.Types.{FilePath, MetaData, Platform, Store, intent_path}
use dps_files.KeyStore.Types.Paths.{block-ne-intent_path}
use dps_files.KeyStore.Exec.Faultless.{system_call_lem, read_file_lem}
use dps_files.KeyStore.Exec.{ok}
use dps_files.KeyStore.BlockSize.{prepare_meta_data, count_blocks}
use dps_files.KeyStore.Files.{
  load_and_store_file_local, loaded_meta_data, local_meta_data, base_name,
}
use dps_files.KeyStore.Index.{file_from_memory, is_expired, track}
use dps_files.KeyStore.RoundTrip.Commit.{
  Fits, stored, stored-Holds, store_and_commit_lem, write_intent_lem, clear_intent_lem,
}
use dps_files.KeyStore.RoundTrip.Laws.{existing_none, CanStore, local_meta_data-Fits}
use dps_files.KeyStore.RoundTrip.Loading.{load_and_commit-eq-store_and_commit}
use dps_files.KeyStore.RoundTrip.Steps.{faults-after_blocks, clock-after_blocks}
use dps_files.KeyStore.RoundTrip.Stored.{Holds, Holds-disk, stored_file}

module _ (P : Platform) (permissions : ℕ) (path : FilePath) (bytes : Bytes) (s : Store) where
  abbrev pub md : MetaData
  md = loaded_meta_data P (base_name P path) permissions bytes s

  -- The state after the store; `disk` is the disk with the intent.
  abbrev pub loaded_from : Map FilePath Bytes → Store
  loaded_from disk =
      let t = stored P md bytes (record s { disk = disk }) in
      record t { disk = erase (intent_path t.config (P.sha256 bytes)) t.disk }

  pub loaded_meta_data-Fits : length bytes ≤ 2 ^ 53 → Fits P md bytes
  unfolding loaded_meta_data
  loaded_meta_data-Fits h =
      let f = local_meta_data-Fits P (base_name P path) bytes s h in
      record { whole = f.whole; covered = f.covered; narrow = f.narrow; few = f.few }

  pub load_and_store_file_local-eq :
      (random : Bytes)
      → CanStore P (base_name P path) bytes s
      → 0 < length bytes
      → lookup path s.disk ≡ some bytes
      → (disk : Map FilePath Bytes) × (load_and_store_file_local P random permissions path s
          ≡ (ok (stored_file P md bytes s.config), loaded_from disk))
  unfolding load_and_store_file_local loaded_meta_data local_meta_data track
  load_and_store_file_local-eq random can pos there =
      let fits = loaded_meta_data-Fits can.fits in
      let (disk, intent) = write_intent_lem P random md s can.faultless in
      let t = record s { disk = disk } in
      let after = stored P md bytes t in
      let commit = store_and_commit_lem P md bytes t fits can.faultless in
      let alike =
        load_and_commit-eq-store_and_commit P (base_name P path) bytes permissions t pos can.fits
          can.faultless in
      let still = faults-after_blocks P md bytes md.total_blocks 0 t ∙ can.faultless in
      let clear = clear_intent_lem (P.sha256 bytes) after still in
      (
        disk,
        ground (
          arith,
          read_file_lem path bytes s can.faultless there,
          system_call_lem s can.faultless,
          existing_none P (base_name P path) bytes s (P.sha256 bytes) can.unknown,
          can.uncached,
          intent,
          alike,
          commit,
          clear,
        ),
      )

  pub loaded_from-Holds :
      (disk : Map FilePath Bytes)
      → CanStore P (base_name P path) bytes s
      → let t = loaded_from disk in Holds P md bytes (stored_file P md bytes t.config) t
  unfolding track local_meta_data loaded_meta_data prepare_meta_data
  loaded_from-Holds disk can =
      let fits = loaded_meta_data-Fits can.fits in
      let t = record s { disk = disk } in
      let after = stored P md bytes t in
      Holds-disk P md bytes _ after (erase (intent_path after.config (P.sha256 bytes)) after.disk)
        (λ key.
          lookup-erase_ne _ _ after.disk
            (λ e. block-ne-intent_path after.config key (P.sha256 bytes) (sym e)))
        (stored-Holds P md bytes t fits can.distinct can.faultless)

  pub file_from_memory-loaded :
      (disk : Map FilePath Bytes)
      → CanStore P (base_name P path) bytes s
      → let t = loaded_from disk in
        file_from_memory (P.sha256 bytes) t ≡ (ok (stored_file P md bytes t.config), t)
  unfolding file_from_memory is_expired local_meta_data loaded_meta_data prepare_meta_data track
      count_blocks
  file_from_memory-loaded disk can =
      let t = loaded_from disk in
      let clock : t.clock ≡ s.clock =
        clock-after_blocks P md bytes md.total_blocks 0 (record s { disk = disk }) in
      ground (
        arith,
        (loaded_from-Holds disk can).known,
        clock,
        mod-eq_of_lt {n = s.clock / 10 ^ 9 + s.config.default_ttl_seconds} {m = 2 ^ 64}
            (omega (arith, can.lives)),
        can.lives,
      )
