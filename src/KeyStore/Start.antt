-- ===== src/KeyStore/Start.antt =====
-- InitKeyStoreWithConfig and ReloadLocalState of key_store.go: the indexes from the metadata on disk.
pub mod Loading
use dps_files.Prelude.{
  list_eq, nat_eq, ℕ, Bool, true, false, Option, none, some, List, [], ◌∷◌, ◌++◌, Bytes, text, take,
  replicate, eqb, if◌then◌else◌, hex_decode, has_suffix, trim_suffix,
}
use dps_files.Prelude.Map.{insert}
use dps_files.KeyStore.Types.{
  Store, Platform, File, FileReference, FilePath, KeyStoreConfig, get_local_block_location,
  default_file_ttl_seconds, hash_size,
}
use dps_files.KeyStore.Exec.{
  Exec, Result, ok, err, pure, gets, modify, attempt, ◌>>=◌, ◌>>◌, system_call, read_file,
}
use dps_files.KeyStore.Index.{index_references}
use dps_files.KeyStore.Cache.{file_names}
use dps_files.KeyStore.Intent.{recover_intents}

abbrev pub metadata_dir : KeyStoreConfig → FilePath
metadata_dir c = c.storage_dir ++ text "metadata" ∷ []

-- `copy(fileHash[:], hashBytes)` into an array of zeros
unfoldable pub to_hash : Bytes → Bytes
to_hash bytes = take hash_size (bytes ++ replicate hash_size 0)

-- `ref.Location = ks.GetLocalBlockLocation(ref.Key)` for each reference
unfoldable pub relocate : KeyStoreConfig → List (Option FileReference) → List (Option FileReference)
relocate c [] = []
relocate c (none ∷ refs) = none ∷ relocate c refs
relocate c (some ref ∷ refs) =
    some (record ref { location = get_local_block_location c ref.key }) ∷ relocate c refs

-- what the loop enters for a file that was read, under the hash in its name
unfoldable pub enter : Bytes → File → Store → Store
enter hash file s =
    let refs = relocate s.config file.references in
    record s {
      files = insert hash (record file { references = refs }) s.files;
      files_by_name = insert file.meta_data.file_name hash s.files_by_name;
      chunk_index = index_references hash 0 refs s.chunk_index;
    }

module _ (P : Platform) where
  enter_read : Bytes → Result Bytes → Exec (Unit {0})
  unfolding enter
  enter_read hash (err e) = pure tt
  enter_read hash (ok bytes) = elim (P.decode_file bytes) [
    | none ↦ pure tt
    | some file ↦ modify (enter hash file)
  ]

  -- the body of the loop; what cannot be read is skipped
  unfoldable pub load_entry : Bytes → Exec (Unit {0})
  unfolding enter_read to_hash
  load_entry name = elim (hex_decode (trim_suffix name (text ".toml"))) [
    | none ↦ pure tt
    | some bytes ↦ do
      c ← gets (λ s. s.config)
      r ← attempt (read_file (metadata_dir c ++ name ∷ []))
      enter_read (to_hash bytes) r
  ]

  unfoldable pub load_entries : List Bytes → Exec (Unit {0})
  unfolding load_entry
  load_entries [] = pure tt
  load_entries (name ∷ names) =
      if has_suffix name (text ".toml")
      then load_entry name >> load_entries names
      else load_entries names

  -- a KeyStore before anything is loaded
  unfoldable pub fresh : KeyStoreConfig → Store → Store
  fresh c s = record s {
    config = record c {
      default_ttl_seconds =
          if eqb c.default_ttl_seconds 0 then default_file_ttl_seconds else c.default_ttl_seconds;
    };
    chunk_index = [];
    files = [];
    files_by_name = [];
  }

  -- InitKeyStoreWithConfig, over the disk of the store; an error of the recovery is dropped
  unfoldable pub init_key_store_with_config : KeyStoreConfig → Exec (Unit {0})
  unfolding fresh load_entries file_names
  init_key_store_with_config c = do
    modify (fresh c)
    system_call
    system_call
    system_call
    system_call
    names ← gets (λ s. file_names (metadata_dir s.config) s.disk)
    load_entries names
    attempt (recover_intents P)
    pure tt

  reloaded : Store → Result (Unit {0}) → Store → Result (Unit {0}) × Store
  reloaded s (err e) t = (err e, record s { disk = t.disk; faults = t.faults })
  reloaded s (ok _) t = (ok tt, record t { config = s.config })

  -- ReloadLocalState
  unfoldable pub reload_local_state : Exec (Unit {0})
  unfolding init_key_store_with_config reloaded
  reload_local_state s = let r = init_key_store_with_config s.config s in reloaded s r.0 r.1
