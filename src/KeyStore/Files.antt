-- ===== src/KeyStore/Files.antt =====
-- Storing and deleting files: files.go, and DeleteFile and CleanupExpired of key_store.go.
pub mod Deletion
pub mod Frame
pub mod Cleanup
pub mod Failure
pub mod Names
use dps_files.Prelude.{
  ℕ, zero, suc, ◌+◌, ◌-◌, ◌*◌, min, true, false, not, ◌&&◌, Option, none, some, List, [], ◌∷◌, ◌++◌,
  Bytes, length, take, drop, text, eqb, ◌==◌, list_eq, nat_eq, if◌then◌else◌,
}
use dps_files.Prelude.Map.{lookup, insert, erase, Map}
use dps_files.KeyStore.Types.{
  Store, Platform, File, FileReference, MetaData, FilePath, uint32, metadata_path,
}
use dps_files.KeyStore.Exec.{
  Exec, Result, ok, err, pure, raise, gets, modify, require, attempt, or_raise, when, ◌>>=◌, ◌>>◌,
  system_call, write_file, read_file, remove, remove_if_present, not_found, size_mismatch,
}
use dps_files.KeyStore.Exec.{unexpected_eof, deferred}
use dps_files.KeyStore.BlockSize.{prepare_meta_data}
use dps_files.KeyStore.Chunk.{compute_chunk_key, store_file_reference, delete_file_reference}
use dps_files.KeyStore.Index.{file_to_memory, existing_file_by_hash, is_expired}
use dps_files.KeyStore.Cache.{ensure_hash_not_cached}
use dps_files.KeyStore.Intent.{write_intent, clear_intent}

-- The cleanup loops: errors of DeleteFileReference are dropped.
unfoldable pub delete_references : List (Option FileReference) → Exec (Unit {0})
delete_references [] = pure tt
delete_references (none ∷ refs) = delete_references refs
delete_references (some ref ∷ refs) =
    attempt (delete_file_reference ref.key) >> delete_references refs

-- `totalBytesProcessed`, from the sizes of the stored references
unfoldable pub total_size_of : List (Option FileReference) → ℕ
total_size_of [] = 0
total_size_of (none ∷ refs) = total_size_of refs
total_size_of (some ref ∷ refs) = ref.size + total_size_of refs

-- `fileData[startIdx:endIdx]` of block i
unfoldable pub block_data : MetaData → Bytes → ℕ → Bytes
block_data md bytes i =
    let start = i * md.block_size in
    take (min (start + md.block_size) md.total_size - start) (drop start bytes)

module _ (P : Platform) where
  -- the reference that the loops make for block i
  unfoldable pub new_block : MetaData → ℕ → Bytes → FileReference
  new_block md i bytes = record {
    key = compute_chunk_key P md.file_hash i;
    file_name = md.file_name;
    size = uint32 (length bytes);
    file_index = i;
    location = [];
    protocol = text "file";
    data_hash = P.sha256 bytes;
    parent = md.file_hash;
  }

  -- The loop of StoreFileLocal: `blocks` are left, from block i on; `refs` are stored.
  unfoldable pub store_blocks :
      MetaData → Bytes → ℕ → ℕ → List (Option FileReference) → Exec (List (Option FileReference))
  store_blocks md bytes zero i refs = pure refs
  store_blocks md bytes (suc blocks) i refs = do
    let block = block_data md bytes i
    r ← attempt (store_file_reference P (new_block md i block) block)
    elim r [
      | err e ↦ (delete_references refs >> raise e)
      | ok ref ↦ store_blocks md bytes blocks (suc i) (refs ++ some ref ∷ [])
    ]

  -- the last part of StoreFileLocal and LoadAndStoreFileLocal
  unfoldable pub commit_file : File → Exec File
  commit_file file = do
    r ← attempt (file_to_memory P file)
    elim r [ err e ↦ (delete_references file.references >> raise e) | ok _ ↦ pure file ]

  -- StoreFileLocal between writeIntent and the deferred clearIntent
  unfoldable pub store_and_commit : MetaData → Bytes → Exec File
  store_and_commit md bytes = do
    refs ← store_blocks md bytes md.total_blocks 0 []
    elim (eqb (total_size_of refs) md.total_size) [
      | false ↦ (delete_references refs >> raise size_mismatch)
      | true ↦ commit_file (record { meta_data = md; references = refs })
    ]

  unfoldable pub local_meta_data : Bytes → Bytes → Store → MetaData
  local_meta_data name bytes s = record (prepare_meta_data s.clock name bytes) {
    ttl = s.config.default_ttl_seconds;
    file_hash = P.sha256 bytes;
  }

  -- StoreFileLocal
  unfoldable pub store_file_local : Bytes → Bytes → Bytes → Exec File
  store_file_local random name bytes = do
    md ← gets (local_meta_data name bytes)
    existing ← existing_file_by_hash P md.file_hash
    elim existing [
      | some file ↦ pure file
      | none ↦ do
        ensure_hash_not_cached P md.file_hash
        write_intent P random md
        deferred (clear_intent md.file_hash) (store_and_commit md bytes)
    ]

  -- The loop of LoadAndStoreFileLocal over an open file: `offset` is `totalBytesRead`. A read that
  -- fails returns at once, with no cleanup.
  unfoldable pub load_blocks :
      MetaData
      → Bytes
      → ℕ
      → ℕ
      → ℕ
      → List (Option FileReference)
      → Exec (List (Option FileReference))
  load_blocks md bytes zero i offset refs = pure refs
  load_blocks md bytes (suc blocks) i offset refs = do
    let wanted =
        (if eqb i (md.total_blocks - 1) then uint32 (md.total_size - offset) else md.block_size)
    system_call
    let block = take wanted (drop offset bytes)
    require (not (eqb (length block) 0)) unexpected_eof
    r ← attempt (store_file_reference P (new_block md i block) block)
    elim r [
      | err e ↦ (delete_references refs >> raise e)
      | ok ref ↦ load_blocks md bytes blocks (suc i) (offset + length block) (refs ++ some ref ∷ [])
    ]

  -- LoadAndStoreFileLocal between writeIntent and the deferred clearIntent
  unfoldable pub load_and_commit : MetaData → Bytes → Exec File
  load_and_commit md bytes = do
    refs ← load_blocks md bytes md.total_blocks 0 0 []
    verify ← gets (λ s. s.config.verify_on_write)
    elim (verify && not (eqb (total_size_of refs) md.total_size)) [
      | true ↦ (delete_references refs >> raise size_mismatch)
      | false ↦ commit_file (record { meta_data = md; references = refs })
    ]

  unfoldable pub loaded_meta_data : Bytes → ℕ → Bytes → Store → MetaData
  loaded_meta_data name permissions bytes s = record (local_meta_data name bytes s) {
    permissions = permissions;
  }

  unfoldable pub base_name : FilePath → Bytes
  base_name [] = text "."
  base_name (name ∷ []) = name
  base_name (_ ∷ path) = base_name path

  -- LoadAndStoreFileLocal. The file does not change while it is open; `permissions` are its mode's.
  unfoldable pub load_and_store_file_local : Bytes → ℕ → FilePath → Exec File
  unfolding base_name
  load_and_store_file_local random permissions path = do
    bytes ← read_file path
    system_call
    system_call
    system_call
    md ← gets (loaded_meta_data (base_name path) permissions bytes)
    existing ← existing_file_by_hash P md.file_hash
    elim existing [
      | some file ↦ pure file
      | none ↦ do
        ensure_hash_not_cached P md.file_hash
        write_intent P random md
        deferred (clear_intent md.file_hash) (load_and_commit md bytes)
    ]

  -- the name that StoreFromReader patches in
  unfoldable pub renamed : Bytes → File → File
  renamed name file = record file { meta_data = record (file.meta_data) { file_name = name } }

  unfoldable pub patch_name : Bytes → File → Store → Store
  unfolding renamed
  patch_name name file s = record s {
    files = elim (lookup file.meta_data.file_hash s.files) [
      | none ↦ s.files
      | some stored ↦ insert file.meta_data.file_hash (renamed name stored) s.files
    ];
    files_by_name =
        insert name file.meta_data.file_hash (erase file.meta_data.file_name s.files_by_name);
  }

  -- the end of StoreFromReader: the file gets its name
  unfoldable pub take_name : Bytes → File → Exec File
  unfolding patch_name renamed
  take_name name file = elim (file.meta_data.file_name == name) [
    | true ↦ pure file
    | false ↦ do
      modify (patch_name name file)
      file_to_memory P (renamed name file)
      pure (renamed name file)
  ]

  -- StoreFromReader once the temporary file is there; `received` is what `io.Copy` got from the
  -- reader before its end or an error.
  unfoldable pub ingest : Bytes → ℕ → Bytes → Result Bytes → ℕ → FilePath → Exec File
  unfolding take_name
  ingest random permissions name received size tmp = do
    bytes ← (λ s. (received, s))
    write_file tmp bytes
    require (eqb (length bytes) size) size_mismatch
    file ← load_and_store_file_local random permissions tmp
    take_name name file

  -- StoreFromReader
  unfoldable pub store_from_reader :
      (random tmp_random : Bytes) → ℕ → Bytes → Result Bytes → ℕ → Exec File
  unfolding ingest
  store_from_reader random tmp_random permissions name received size = do
    dir ← gets (λ s. s.config.storage_dir)
    let tmp = dir ++ (text "upload-" ++ tmp_random) ∷ []
    write_file tmp []
    deferred (attempt (remove tmp) >> pure tt) (ingest random permissions name received size tmp)

-- the body of DeleteFile's loop
unfoldable pub drop_chunk : FileReference → Exec (Unit {0})
drop_chunk ref = do
  when (not (ref.location == [])) (remove_if_present ref.location)
  modify (λ s. record s { chunk_index = erase ref.key s.chunk_index })

-- the loop of DeleteFile
unfoldable pub delete_chunks : List (Option FileReference) → Exec (Unit {0})
delete_chunks [] = pure tt
delete_chunks (none ∷ refs) = delete_chunks refs
delete_chunks (some ref ∷ refs) = drop_chunk ref >> delete_chunks refs

-- DeleteFile
unfoldable pub delete_file : Bytes → Exec (Unit {0})
unfolding delete_chunks
delete_file key = do
  found ← gets (λ s. lookup key s.files)
  file ← or_raise found not_found
  delete_chunks file.references
  path ← gets (λ s. metadata_path s.config key)
  remove_if_present path
  modify (λ s. record s {
    files_by_name = erase file.meta_data.file_name s.files_by_name;
    files = erase key s.files;
  })

unfoldable pub expired_keys : ℕ → Map Bytes File → List Bytes
expired_keys now [] = []
expired_keys now ((key, file) ∷ files) =
    let rest = expired_keys now files in if is_expired now file then key ∷ rest else rest

unfoldable pub delete_all : List Bytes → ℕ → Exec ℕ
delete_all [] removed = pure removed
delete_all (key ∷ keys) removed = do
  r ← attempt (delete_file key)
  elim r [ ok _ ↦ delete_all keys (removed + 1) | err _ ↦ delete_all keys removed ]

-- CleanupExpired
unfoldable pub cleanup_expired : Exec ℕ
unfolding expired_keys delete_all
cleanup_expired = do
  now ← gets (λ s. s.clock)
  keys ← gets (λ s. expired_keys now s.files)
  delete_all keys 0
