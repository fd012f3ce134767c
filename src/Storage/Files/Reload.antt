-- ===== src/Storage/Files/Reload.antt =====
-- A deep clean of cmd/storage (filesystem.go) and the reload of the key store after it
-- (ReloadLocalState of key_store.go).
use dps_files.Prelude.{
  text, ap, ◌∙◌, ◌≡◌, refl, arith, inl, ◌++◌, Bytes, List, Option-cases, inr, ℕ, [], ◌∷◌, zero, suc,
}
use dps_files.Storage.Files.{
  subdirectory, kdht_names, cleanup_all_kdht_files, count_dir_files, DeepCleanResult,
  deep_clean_storage, empty_directory, remove_all,
}
use dps_files.KeyStore.Exec.Memory.{
  remove_if_present-memory, memory, Result-cases, Ensures, bind-Ensures,
}
use dps_files.Storage.Files.DeepClean.{deep_clean_storage-IsCleaned, IsCleaned}
use dps_files.KeyStore.Chunk.{compute_chunk_key}
use dps_files.KeyStore.Types.{
  metadata_path, get_local_block_location, Store, Platform, FilePath, IntentRecord,
}
use dps_files.KeyStore.Exec.{
  ◌>>=◌, ◌>>◌, system_call, Exec, pure, gets, attempt, ok, err, Result, read_file, stat,
  remove_if_present,
}
use dps_files.KeyStore.Exec.Quiet.{
  IsQuiet, read_file-IsQuiet, stat-IsQuiet, remove_if_present-IsQuiet, system_call-IsQuiet,
}
use dps_files.KeyStore.Intent.{
  remove_chunks, clean_intent, recover_record, recover_intent_file, recover_entries,
  recover_intents, intent_dir, parse_intent_hash,
}
use dps_files.KeyStore.Cache.{file_names}
use dps_files.KeyStore.Start.{
  metadata_dir, fresh, load_entries, init_key_store_with_config, reload_local_state,
}

remove_chunks-IsQuiet : (path : ℕ → FilePath) (blocks i : ℕ) → IsQuiet (remove_chunks path blocks i)
unfolding remove_chunks
remove_chunks-IsQuiet path zero i s = (refl, refl, λ h. h)
remove_chunks-IsQuiet path (suc blocks) i s = ground (
  arith,
  remove_if_present-IsQuiet (path i) s,
  remove_chunks-IsQuiet path blocks (suc i) (remove_if_present (path i) s).1,
)

module _ (P : Platform) where
  clean_intent-IsQuiet :
      (path : FilePath) (rec : IntentRecord) (hash : Bytes) (committed : Result ℕ)
      → IsQuiet (clean_intent P path rec hash committed)
  unfolding clean_intent
  clean_intent-IsQuiet path rec hash (ok n) s = remove_if_present-IsQuiet path s
  clean_intent-IsQuiet path rec hash (err e) s =
      let c = s.config in
      let at : ℕ → FilePath = λ i. get_local_block_location c (compute_chunk_key P hash i) in
      let t = (remove_chunks at rec.total_blocks 0 s).1 in
      ground
        (arith, remove_chunks-IsQuiet at rec.total_blocks 0 s, remove_if_present-IsQuiet path t)

  recover_record-IsQuiet :
      (path : FilePath) (rec : IntentRecord) → IsQuiet (recover_record P path rec)
  unfolding recover_record
  recover_record-IsQuiet path rec s = elim (Option-cases (parse_intent_hash rec.file_hash)) [
    | inl e ↦ ground (arith, e, remove_if_present-IsQuiet path s)
    | inr (hash, e) ↦
        let r = stat (metadata_path s.config hash) s in
        ground (
          arith,
          e,
          stat-IsQuiet (metadata_path s.config hash) s,
          clean_intent-IsQuiet path rec hash r.0 r.1,
        )
  ]

  recover_intent_file-IsQuiet : (path : FilePath) → IsQuiet (recover_intent_file P path)
  unfolding recover_intent_file
  recover_intent_file-IsQuiet path s = elim (Result-cases (read_file path s)) [
    | inr (e, h) ↦ ground (arith, h, read_file-IsQuiet path s)
    | inl (bytes, h) ↦
        let t = (read_file path s).1 in
        elim (Option-cases (P.decode_intent bytes)) [
          | inl e ↦ ground (arith, h, e, read_file-IsQuiet path s, remove_if_present-IsQuiet path t)
          | inr (rec, e) ↦
              ground (arith, h, e, read_file-IsQuiet path s, recover_record-IsQuiet path rec t)
        ]
  ]

  recover_entries-IsQuiet :
      (dir : FilePath) (names : List Bytes) (issues : ℕ)
      → IsQuiet (recover_entries P dir names issues)
  unfolding recover_entries
  recover_entries-IsQuiet dir [] issues s = (refl, refl, λ h. h)
  recover_entries-IsQuiet dir (name ∷ names) issues s =
      let path = dir ++ name ∷ [] in
      let t = (recover_intent_file P path s).1 in
      ground (
        arith,
        recover_intent_file-IsQuiet path s,
        recover_entries-IsQuiet dir names issues s,
        recover_entries-IsQuiet dir names issues t,
        recover_entries-IsQuiet dir names (suc issues) t,
      )

  recover_intents-IsQuiet : IsQuiet (recover_intents P)
  unfolding recover_intents
  recover_intents-IsQuiet s =
      let t = (system_call s).1 in
      let dir = intent_dir t.config in
      ground (arith, system_call-IsQuiet s, recover_entries-IsQuiet dir (file_names dir t.disk) 0 t)

  -- No file is known, and there is none in the directory of the metadata.
  abbrev IsBlank : FilePath → Store → Type 0
  IsBlank dir t =
      (metadata_dir t.config ≡ dir)
      × (file_names dir t.disk ≡ [])
      × (t.files ≡ [])
      × (t.files_by_name ≡ [])

  abbrev KnowsNone : Store → Type 0
  KnowsNone t = (t.files ≡ []) × (t.files_by_name ≡ [])

  system_call-IsBlank : {dir : FilePath} (t : Store) → IsBlank dir t → IsBlank dir (system_call t).1
  unfolding system_call
  system_call-IsBlank t (a, b, c, d) = ground (arith, a, b, c, d)

  abbrev load_none : Exec (Unit {0})
  unfolding load_entries file_names
  load_none = do
    names ← gets (λ s. file_names (metadata_dir s.config) s.disk)
    load_entries P names
    attempt (recover_intents P)
    pure tt

  load_none-KnowsNone : {dir : FilePath} (t : Store) → IsBlank dir t → KnowsNone (load_none t).1
  unfolding load_entries load_none
  load_none-KnowsNone t (a, b, c, d) =
      let e : file_names (metadata_dir t.config) t.disk ≡ [] = rw a b in
      let q = recover_intents-IsQuiet t in rw e (q.0 ∙ c, q.1 ∙ d)

  init_key_store_with_config-KnowsNone :
      (s : Store)
      → file_names (metadata_dir s.config) s.disk ≡ []
      → Ensures (λ _ t. KnowsNone t) (init_key_store_with_config P s.config s)
  unfolding init_key_store_with_config fresh load_entries
  init_key_store_with_config-KnowsNone s empty =
      let a : Store = fresh P s.config s in
      let b = (system_call a).1 in
      let c = (system_call b).1 in
      let d = (system_call c).1 in
      let blank = system_call-IsBlank d (
        system_call-IsBlank c
          (system_call-IsBlank b (system_call-IsBlank a (refl, empty, refl, refl)))) in
      let Q : Unit {0} → Store → Type 0 = λ _ t. KnowsNone t in
      bind-Ensures Q system_call _ a (λ _ _. bind-Ensures Q system_call _ b (λ _ _.
        bind-Ensures Q system_call _ c (λ _ _.
          bind-Ensures Q system_call (λ _. load_none) d
            (λ _ _ _ _. load_none-KnowsNone (system_call d).1 blank))))

  reload_local_state-empty :
      (s : Store)
      → file_names (metadata_dir s.config) s.disk ≡ []
      → (reload_local_state P s).0 ≡ ok tt
      → KnowsNone (reload_local_state P s).1
  unfolding reload_local_state
  reload_local_state-empty s empty h =
      elim (Result-cases (init_key_store_with_config P s.config s)) [
        | inr (e, r) ↦ absurd (ground (arith, r, h))
        | inl (a, r) ↦ ground (arith, r, init_key_store_with_config-KnowsNone s empty a r)
      ]

remove_all-memory :
    (dir : FilePath) (names : List Bytes) (removed : ℕ) (s : Store)
    → memory (remove_all dir names removed s).1 ≡ memory s
unfolding remove_all
remove_all-memory dir [] removed s = refl
remove_all-memory dir (n ∷ names) removed s =
    let path = dir ++ n ∷ [] in
    let t = (remove_if_present path s).1 in
    ground (arith, remove_if_present-memory path s, remove_all-memory dir names (suc removed) t)

empty_directory-memory : (dir : FilePath) (s : Store) → memory (empty_directory dir s).1 ≡ memory s
unfolding empty_directory count_dir_files system_call
empty_directory-memory dir s = ground arith

deep_clean_storage-memory :
    (storage_dir : FilePath) (s : Store) → memory (deep_clean_storage storage_dir s).1 ≡ memory s
unfolding deep_clean_storage cleanup_all_kdht_files kdht_names
deep_clean_storage-memory storage_dir s =
    let chunks = subdirectory storage_dir (text "data") in
    let a = (cleanup_all_kdht_files storage_dir s).1 in
    let metadata = subdirectory storage_dir (text "metadata") in
    let b = (empty_directory metadata a).1 in
    ground (
      arith,
      remove_all-memory chunks (kdht_names storage_dir s) 0 s,
      empty_directory-memory metadata a,
      empty_directory-memory (subdirectory storage_dir (text ".cache")) b,
    )

-- When deepCleanStorage and the reload of the key store after it report no error, no file is known,
-- and the clean has left no `.kdht` file in data and no file in metadata and .cache.
pub deep_clean-reload :
    (P : Platform) (s : Store) (result : DeepCleanResult)
    → (deep_clean_storage s.config.storage_dir s).0 ≡ ok result
    → (reload_local_state P (deep_clean_storage s.config.storage_dir s).1).0 ≡ ok tt
    → let t = (deep_clean_storage s.config.storage_dir s).1 in
      ((reload_local_state P t).1.files ≡ [])
      × ((reload_local_state P t).1.files_by_name ≡ [])
      × IsCleaned s.config.storage_dir t
deep_clean-reload P s result h k =
    let dir = s.config.storage_dir in
    let t = (deep_clean_storage dir s).1 in
    let cleaned = deep_clean_storage-IsCleaned dir s result h in
    let config : t.config ≡ s.config = ap (λ m. m.config) (deep_clean_storage-memory dir s) in
    let empty : file_names (metadata_dir t.config) t.disk ≡ [] = rw config cleaned.1 in
    let q = reload_local_state-empty P t empty k in (q.0, q.1, cleaned)
