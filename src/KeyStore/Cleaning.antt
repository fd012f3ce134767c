-- ===== src/KeyStore/Cleaning.antt =====
-- The wholesale operations of key_store.go and metadata.go: Cleanup, CleanupExtensions and
-- verifyFileReferences, UpdateLocalMetaData, LoadLocalFileToMemory and LoadAllLocalFilesToMemory.
pub mod Laws
use dps_files.Prelude.{
  ℕ, Bool, true, false, not, ◌&&◌, ◌||◌, Option, none, some, List, [], ◌∷◌, ◌++◌, Bytes, text, ◌==◌,
  list_eq, nat_eq, if◌then◌else◌, contains, has_suffix, trim_suffix, hex_encode, hex_decode,
}
use dps_files.Prelude.Map.{Map, lookup, insert, erase}
use dps_files.KeyStore.Types.{
  Store, Platform, File, FileReference, FilePath, KeyStoreConfig, ChunkLoc, chunk_data_dir,
  get_local_block_location, metadata_path,
}
use dps_files.KeyStore.Exec.{
  Exec, Result, ok, err, pure, raise, gets, modify, attempt, or_raise, when, ◌>>=◌, ◌>>◌,
  system_call, read_file, write_file, stat, remove, remove_if_present, not_exist, undecodable,
}
use dps_files.KeyStore.Index.{index_references}
use dps_files.KeyStore.Chunk.{slot}
use dps_files.KeyStore.Cache.{file_names, move_to_cache}
use dps_files.KeyStore.Start.{metadata_dir, to_hash}

-- the three maps, made anew
unfoldable pub forget : Store → Store
forget s = record s { chunk_index = []; files = []; files_by_name = [] }

-- the reference that an entry of the chunk index leads to
unfoldable pub indexed_reference : ChunkLoc → Map Bytes File → Option FileReference
indexed_reference loc files = elim (lookup loc.file_hash files) [
  | none ↦ none
  | some file ↦ slot file.references loc.chunk_index
]

unfoldable pub remove_location : Option FileReference → Exec (Unit {0})
remove_location none = pure tt
remove_location (some ref) = remove_if_present ref.location

-- the first loop of Cleanup
unfoldable pub remove_indexed : Map Bytes ChunkLoc → Exec (Unit {0})
unfolding indexed_reference remove_location
remove_indexed [] = pure tt
remove_indexed ((_, loc) ∷ index) = do
  ref ← gets (λ s. indexed_reference loc s.files)
  remove_location ref
  remove_indexed index

-- the second loop of Cleanup
unfoldable pub remove_chunk_files : FilePath → List Bytes → Exec (Unit {0})
remove_chunk_files dir [] = pure tt
remove_chunk_files dir (name ∷ names) = do
  when (has_suffix name (text ".kdht")) (remove_if_present (dir ++ name ∷ []))
  remove_chunk_files dir names

-- `os.RemoveAll` of a directory that holds files only
unfoldable pub erase_in : FilePath → List Bytes → Map FilePath Bytes → Map FilePath Bytes
erase_in dir [] disk = disk
erase_in dir (name ∷ names) disk = erase (dir ++ name ∷ []) (erase_in dir names disk)

-- Cleanup
unfoldable pub cleanup : Exec (Unit {0})
unfolding remove_indexed remove_chunk_files erase_in file_names forget
cleanup = do
  index ← gets (λ s. s.chunk_index)
  remove_indexed index
  dir ← gets (λ s. chunk_data_dir s.config)
  system_call
  names ← gets (λ s. file_names dir s.disk)
  remove_chunk_files dir names
  system_call
  modify (λ s. record s {
    disk = erase_in (metadata_dir s.config) (file_names (metadata_dir s.config) s.disk) s.disk;
  })
  modify forget

-- `filepath.Ext` of a name: from its last dot on
unfoldable pub extension : Bytes → Bytes
extension [] = []
extension (c ∷ cs) =
    let rest = extension cs in if rest == [] then (if c == b'.' then c ∷ cs else []) else rest

-- the last component of a path has the extension
unfoldable pub path_extension : FilePath → Bytes
unfolding extension
path_extension [] = []
path_extension (name ∷ []) = extension name
path_extension (_ ∷ c ∷ path) = path_extension (c ∷ path)

unfoldable pub remove_matching : List Bytes → Option FileReference → Exec (Unit {0})
unfolding path_extension
remove_matching extensions none = pure tt
remove_matching extensions (some ref) =
    when (contains (path_extension ref.location) extensions) (remove ref.location)

-- the first loop of CleanupExtensions
unfoldable pub remove_indexed_matching : List Bytes → Map Bytes ChunkLoc → Exec (Unit {0})
unfolding indexed_reference remove_matching
remove_indexed_matching extensions [] = pure tt
remove_indexed_matching extensions ((_, loc) ∷ index) = do
  ref ← gets (λ s. indexed_reference loc s.files)
  remove_matching extensions ref
  remove_indexed_matching extensions index

unfoldable pub remove_named_matching : List Bytes → FilePath → List Bytes → Exec (Unit {0})
unfolding extension
remove_named_matching extensions dir [] = pure tt
remove_named_matching extensions dir (name ∷ names) = do
  when (contains (extension name) extensions) (remove (dir ++ name ∷ []))
  remove_named_matching extensions dir names

-- CleanupExtensions; the directory of metadata that cannot be read is passed over
unfoldable pub cleanup_extensions : List Bytes → Exec (Unit {0})
unfolding remove_indexed_matching remove_named_matching file_names forget
cleanup_extensions extensions = do
  index ← gets (λ s. s.chunk_index)
  remove_indexed_matching extensions index
  listed ← attempt system_call
  dir ← gets (λ s. metadata_dir s.config)
  names ← gets (λ s. file_names dir s.disk)
  elim listed [ ok _ ↦ remove_named_matching extensions dir names | err _ ↦ pure tt ]
  modify forget

-- CleanupKDHT
unfoldable pub cleanup_kdht : Exec (Unit {0})
unfolding cleanup_extensions
cleanup_kdht = cleanup_extensions (text ".kdht" ∷ [])

-- CleanupMetaData
unfoldable pub cleanup_meta_data : Exec (Unit {0})
unfolding cleanup_extensions
cleanup_meta_data = cleanup_extensions (text ".toml" ∷ [])

is_absent : Result ℕ → Bool
is_absent (err not_exist) = true
is_absent _ = false

-- The inner loop of verifyFileReferences: is a chunk of the file missing?
unfoldable pub drop_missing : List (Option FileReference) → Bool → Exec Bool
unfolding is_absent
drop_missing [] orphaned = pure orphaned
drop_missing (none ∷ refs) orphaned = drop_missing refs orphaned
drop_missing (some ref ∷ refs) orphaned = do
  path ← gets (λ s. get_local_block_location s.config ref.key)
  info ← attempt (stat path)
  elim (is_absent info) [
    | false ↦ drop_missing refs orphaned
    | true ↦ do
      modify (λ s. record s { chunk_index = erase ref.key s.chunk_index })
      drop_missing refs true
  ]

-- the outer loop: the hashes of the files that miss a chunk
unfoldable pub orphaned_hashes : Map Bytes File → Exec (List Bytes)
unfolding drop_missing
orphaned_hashes [] = pure []
orphaned_hashes ((hash, file) ∷ files) = do
  orphaned ← drop_missing file.references false
  rest ← orphaned_hashes files
  pure (if orphaned then hash ∷ rest else rest)

forget_file : Bytes → Store → Store
forget_file hash s = record s {
  files_by_name = elim (lookup hash s.files) [
    | none ↦ s.files_by_name
    | some file ↦ erase file.meta_data.file_name s.files_by_name
  ];
  files = erase hash s.files;
}

unfoldable pub retire : List Bytes → Exec (Unit {0})
unfolding forget_file
retire [] = pure tt
retire (hash ∷ hashes) = do
  modify (forget_file hash)
  path ← gets (λ s. metadata_path s.config hash)
  attempt (move_to_cache path)
  retire hashes

-- verifyFileReferences
unfoldable pub verify_file_references : Exec (Unit {0})
unfolding orphaned_hashes retire
verify_file_references = do
  files ← gets (λ s. s.files)
  hashes ← orphaned_hashes files
  retire hashes

-- the references without a location are dropped
unfoldable pub located_only : List (Option FileReference) → List (Option FileReference)
located_only [] = []
located_only (none ∷ refs) = none ∷ located_only refs
located_only (some ref ∷ refs) = (if ref.location == [] then none else some ref) ∷ located_only refs

module _ (P : Platform) where
  write_all : Map Bytes File → Exec (Unit {0})
  write_all [] = pure tt
  write_all ((hash, file) ∷ files) = do
    path ← gets (λ s. metadata_path s.config hash)
    write_file path (P.encode_file file)
    write_all files

  -- UpdateLocalMetaData
  unfoldable pub update_local_meta_data : Exec (Unit {0})
  unfolding write_all
  update_local_meta_data = do system_call; files ← gets (λ s. s.files); write_all files

  -- LoadLocalFileToMemory
  unfoldable pub load_local_file_to_memory : Bytes → Exec File
  unfolding located_only
  load_local_file_to_memory key = do
    path ← gets (λ s. metadata_path s.config key)
    bytes ← read_file path
    file ← or_raise (P.decode_file bytes) undecodable
    pure (record file { references = located_only file.references })

  enter_file : Bytes → File → Store → Store
  enter_file hash file s = record s {
    files = insert hash file s.files;
    files_by_name = insert file.meta_data.file_name hash s.files_by_name;
    chunk_index = index_references hash 0 file.references s.chunk_index;
  }

  load_named : Bytes → Exec (Unit {0})
  unfolding load_local_file_to_memory enter_file to_hash
  load_named name = do
    bytes ← or_raise (hex_decode (trim_suffix name (text ".toml"))) undecodable
    file ← load_local_file_to_memory (to_hash bytes)
    modify (enter_file (to_hash bytes) file)

  load_all : List Bytes → Exec (Unit {0})
  unfolding load_named
  load_all [] = pure tt
  load_all (name ∷ names) = do
    when (has_suffix name (text ".toml")) (load_named name)
    load_all names

  -- LoadAllLocalFilesToMemory
  unfoldable pub load_all_local_files_to_memory : Exec (Unit {0})
  unfolding load_all file_names
  load_all_local_files_to_memory = do
    system_call
    system_call
    names ← gets (λ s. file_names (metadata_dir s.config) s.disk)
    load_all names
