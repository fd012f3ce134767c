-- ===== src/KeyStore/Index.antt =====
-- The in-memory indexes of key_store.go, and the metadata and cache files that mirror them.
use dps_files.Prelude.{
  ℕ, suc, ◌+◌, ◌/◌, ◌%◌, ◌^◌, Bool, true, false, not, ◌&&◌, ◌||◌, Option, none, some, List, [], ◌∷◌,
  ◌++◌, Bytes, length, text, eqb, ltb, leb, ◌==◌, list_eq, nat_eq, if◌then◌else◌, has_prefix,
}
use dps_files.Prelude.Map.{lookup, insert, erase, Map}
use dps_files.KeyStore.Types.{
  Store, Platform, File, FileReference, MetaData, ChunkLoc, FilePath, KeyStoreConfig, uint32,
  get_local_block_location, metadata_path, cache_path_for_hash,
}
use dps_files.KeyStore.Exec.{
  Exec, ok, err, pure, gets, modify, require, attempt, or_raise, ◌>>=◌, ◌>>◌, system_call,
  write_file, stat, not_found, expired,
}

abbrev second : ℕ
second = 10 ^ 9

-- `int64(n)` of a 64-bit word that is compared with a time after 1970: does it lie below `now`?
unfoldable pub before_now : ℕ → ℕ → Bool
before_now word now = if leb (2 ^ 63) word then true else ltb word now

-- isExpired: `time.Now().Unix() > modifiedSec+int64(file.MetaData.TTL)`, with the sum as it wraps.
unfoldable pub is_expired : ℕ → File → Bool
unfolding before_now
is_expired clock file =
    if eqb file.meta_data.ttl 0
    then false
    else before_now ((file.meta_data.modified / second + file.meta_data.ttl) % 2 ^ 64)
        (clock / second)

-- `for i, ref := range file.References` that enters each reference in the chunk index
unfoldable pub index_references :
    Bytes → ℕ → List (Option FileReference) → Map Bytes ChunkLoc → Map Bytes ChunkLoc
index_references hash i [] m = m
index_references hash i (none ∷ refs) m = index_references hash (suc i) refs m
index_references hash i (some ref ∷ refs) m =
    index_references hash (suc i) refs
      (insert ref.key (record { file_hash = hash; chunk_index = uint32 i }) m)

-- `delete(ks.chunkIndex, ref.Key)` for each reference
unfoldable pub unindex_references :
    List (Option FileReference) → Map Bytes ChunkLoc → Map Bytes ChunkLoc
unindex_references [] m = m
unindex_references (none ∷ refs) m = unindex_references refs m
unindex_references (some ref ∷ refs) m = unindex_references refs (erase ref.key m)

-- the first part of fileToMemory
unfoldable pub track : File → Store → Store
track file s = record s {
  files = insert file.meta_data.file_hash file s.files;
  files_by_name = insert file.meta_data.file_name file.meta_data.file_hash s.files_by_name;
  chunk_index = index_references file.meta_data.file_hash 0 file.references s.chunk_index;
}

-- dropFileFromMemory
unfoldable pub drop_file_from_memory : Bytes → Exec (Unit {0})
drop_file_from_memory key s = elim (lookup key s.files) [
  | none ↦ (ok tt, s)
  | some file ↦ (
    ok tt,
    record s {
      chunk_index = unindex_references file.references s.chunk_index;
      files_by_name = erase file.meta_data.file_name s.files_by_name;
      files = erase key s.files;
    },
  )
]

-- fileFromMemory
unfoldable pub file_from_memory : Bytes → Exec File
file_from_memory key = do
  found ← gets (λ s. lookup key s.files)
  file ← or_raise found not_found
  now ← gets (λ s. s.clock)
  require (not (is_expired now file)) expired
  pure file

-- GetFileByHash
unfoldable pub get_file_by_hash : Bytes → Exec File
unfolding file_from_memory
get_file_by_hash key = file_from_memory key

-- GetFileByName
unfoldable pub get_file_by_name : Bytes → Exec File
unfolding file_from_memory
get_file_by_name name = do
  found ← gets (λ s. lookup name s.files_by_name)
  hash ← or_raise found not_found
  file_from_memory hash

-- ListKnownFiles
unfoldable pub list_known_files : Map Bytes File → List MetaData
list_known_files [] = []
list_known_files ((_, file) ∷ files) = file.meta_data ∷ list_known_files files

-- isLocalReference. The storage directory is not empty; `local/storage/` is the layout of old
-- metadata.
unfoldable pub is_local_reference : KeyStoreConfig → FileReference → Bool
is_local_reference c ref =
    if ref.protocol == [] || ref.protocol == text "file"
    then true
    else if ref.location == []
    then false
    else has_prefix ref.location c.storage_dir
      || (has_prefix ref.location (text "local" ∷ text "storage" ∷ [])
          && ltb 2 (length ref.location))

unfoldable pub exists_any : List FilePath → Exec Bool
exists_any [] = pure false
exists_any (path ∷ paths) = do
  r ← attempt (stat path)
  elim r [ ok _ ↦ pure true | err _ ↦ exists_any paths ]

-- localReferenceExists
unfoldable pub local_reference_exists : FileReference → Exec Bool
unfolding exists_any
local_reference_exists ref = do
  c ← gets (λ s. s.config)
  let key_path = get_local_block_location c ref.key
  let stored : List FilePath = if ref.location == [] then [] else ref.location ∷ []
  let derived : List FilePath = if ref.location == key_path then [] else key_path ∷ []
  exists_any (stored ++ derived)

-- fileHasMissingLocalReferences, and the loop of cacheEntryIsLive
unfoldable pub has_missing_references : List (Option FileReference) → Exec Bool
has_missing_references [] = pure false
has_missing_references (none ∷ refs) = pure true
has_missing_references (some ref ∷ refs) = do
  c ← gets (λ s. s.config)
  exists ← elim (is_local_reference c ref) [ true ↦ local_reference_exists ref | false ↦ pure true ]
  elim exists [ true ↦ has_missing_references refs | false ↦ pure true ]

module _ (P : Platform) where
  -- upsertCacheEntry
  unfoldable pub upsert_cache_entry : File → Exec (Unit {0})
  upsert_cache_entry file = do
    system_call
    path ← gets (λ s. cache_path_for_hash s.config file.meta_data.file_hash)
    write_file path (P.encode_file file)

  -- fileToMemory
  unfoldable pub file_to_memory : File → Exec (Unit {0})
  unfolding upsert_cache_entry track
  file_to_memory file = do
    modify (track file)
    system_call
    path ← gets (λ s. metadata_path s.config file.meta_data.file_hash)
    write_file path (P.encode_file file)
    upsert_cache_entry file

  unfoldable pub refreshed : File → Store → File
  refreshed file s = record file {
    meta_data = record (file.meta_data) { modified = s.clock; ttl = s.config.default_ttl_seconds };
  }

  -- the end of existingFileByHash, for a file that is known and has its chunks
  unfoldable pub reactivate : File → Exec (Option File)
  reactivate file = do
    now ← gets (λ s. s.clock)
    elim (is_expired now file) [
      | false ↦ pure (some file)
      | true ↦ do
        fresh ← gets (refreshed file)
        r ← attempt (file_to_memory fresh)
        elim r [ ok _ ↦ pure (some fresh) | err _ ↦ pure none ]
    ]

  -- existingFileByHash
  unfoldable pub existing_file_by_hash : Bytes → Exec (Option File)
  unfolding reactivate refreshed
  existing_file_by_hash key = do
    found ← gets (λ s. lookup key s.files)
    elim found [
      | none ↦ pure none
      | some file ↦ do
        stale ← has_missing_references file.references
        elim stale [ true ↦ (drop_file_from_memory key >> pure none) | false ↦ reactivate file ]
    ]
