-- ===== src/Storage/Files.antt =====
-- filesystem.go of cmd/storage: the files under the storage and the upload directories.
pub mod Names
pub mod DeepClean
pub mod Reload
use dps_files.Prelude.{
  list_eq, nat_eq, to_lower, has_prefix, if◌then◌else◌, suc, Bool, has_suffix, length, not, ◌++◌,
  Bytes, List, text, ℕ, none, some, [], ◌∷◌, true, false,
}
use dps_files.KeyStore.Types.{Store, FilePath}
use dps_files.KeyStore.Exec.{
  Exec, pure, gets, modify, when, attempt, raise, ok, err, not_exist, ◌>>=◌, ◌>>◌, system_call,
  remove, remove_if_present,
}
use dps_files.KeyStore.Cache.{file_names}
use dps_files.KeyStore.Cleaning.{erase_in}

pub record DeepCleanResult : Type 0 where
  pub removed_kdht : ℕ
  pub removed_metadata : ℕ
  pub removed_cache : ℕ

-- `strings.HasPrefix(strings.ToLower(name), "copy.")`
abbrev pub is_copy : Bytes → Bool
is_copy name = has_prefix (to_lower name) (text "copy.")

unfoldable pub keep : (Bytes → Bool) → List Bytes → List Bytes
keep test [] = []
keep test (name ∷ names) = let rest = keep test names in if test name then name ∷ rest else rest

-- getFilesInDirectory
unfoldable pub get_files_in_directory : FilePath → Exec (List Bytes)
unfolding keep
get_files_in_directory dir = do
  system_call
  gets (λ s. keep (λ name. not (is_copy name)) (file_names dir s.disk))

-- the directories of a storage root
abbrev pub subdirectory : FilePath → Bytes → FilePath
subdirectory storage_dir name = storage_dir ++ name ∷ []

-- `filepath.Glob` of "data/*.kdht"; the root has no character that a pattern reads.
unfoldable pub kdht_names : FilePath → Store → List Bytes
unfolding keep
kdht_names storage_dir s =
    keep (λ name. has_suffix name (text ".kdht"))
      (file_names (subdirectory storage_dir (text "data")) s.disk)

-- countKDHTFiles
unfoldable pub count_kdht_files : FilePath → Exec ℕ
unfolding kdht_names
count_kdht_files storage_dir = gets (λ s. length (kdht_names storage_dir s))

unfoldable pub remove_copies : FilePath → List Bytes → Exec (Unit {0})
remove_copies dir [] = pure tt
remove_copies dir (name ∷ names) = do
  when (is_copy name) (remove (dir ++ name ∷ []))
  remove_copies dir names

-- cleanupCopyFiles
unfoldable pub cleanup_copy_files : FilePath → Exec (Unit {0})
unfolding remove_copies
cleanup_copy_files dir = do
  system_call
  names ← gets (λ s. file_names dir s.disk)
  remove_copies dir names

-- the loop of cleanupAllKDHTFiles
unfoldable pub remove_all : FilePath → List Bytes → ℕ → Exec ℕ
remove_all dir [] removed = pure removed
remove_all dir (name ∷ names) removed = do
  remove_if_present (dir ++ name ∷ [])
  remove_all dir names (suc removed)

-- cleanupAllKDHTFiles
unfoldable pub cleanup_all_kdht_files : FilePath → Exec ℕ
unfolding kdht_names remove_all
cleanup_all_kdht_files storage_dir = do
  names ← gets (kdht_names storage_dir)
  remove_all (subdirectory storage_dir (text "data")) names 0

-- countDirFiles
unfoldable pub count_dir_files : FilePath → Exec ℕ
count_dir_files dir = do system_call; gets (λ s. length (file_names dir s.disk))

-- metadataFileCount
unfoldable pub metadata_file_count : FilePath → Exec ℕ
unfolding keep
metadata_file_count storage_dir = do
  system_call
  gets (λ s. length (
      keep (λ name. has_suffix name (text ".toml"))
        (file_names (subdirectory storage_dir (text "metadata")) s.disk)))

-- `os.RemoveAll` and `os.MkdirAll` of a directory, and the number of its files before
unfoldable pub empty_directory : FilePath → Exec ℕ
unfolding count_dir_files
empty_directory dir = do
  count ← count_dir_files dir
  system_call
  modify (λ s. record s { disk = erase_in dir (file_names dir s.disk) s.disk })
  system_call
  pure count

-- deepCleanStorage
unfoldable pub deep_clean_storage : FilePath → Exec DeepCleanResult
unfolding cleanup_all_kdht_files empty_directory
deep_clean_storage storage_dir = do
  kdht ← cleanup_all_kdht_files storage_dir
  metadata ← empty_directory (subdirectory storage_dir (text "metadata"))
  cache ← empty_directory (subdirectory storage_dir (text ".cache"))
  pure (record { removed_kdht = kdht; removed_metadata = metadata; removed_cache = cache })
