-- ===== src/KeyStore/Cache.antt =====
-- The cache of metadata: isCacheVariant, cacheEntryIsLive, hasCacheEntryForHash and their callers
-- in key_store.go.
use dps_files.Prelude.{
  Bool, true, false, not, ◌||◌, Option, none, some, List, [], ◌∷◌, ◌++◌, Bytes, text, ◌==◌, list_eq,
  nat_eq, if◌then◌else◌, hex_encode, has_prefix, has_suffix, trim_suffix,
}
use dps_files.Prelude.Map.{Map}
use dps_files.KeyStore.Types.{Platform, FilePath, KeyStoreConfig}
use dps_files.KeyStore.Exec.{
  Exec, Result, ok, err, pure, raise, gets, require, attempt, or_raise, ◌>>=◌, ◌>>◌, system_call,
  read_file, remove_if_present, rename, not_exist, cached, undecodable,
}
use dps_files.KeyStore.Index.{has_missing_references}

-- The name of a file that stands directly in a directory.
unfoldable pub entry_name : FilePath → FilePath → Option Bytes
entry_name [] (name ∷ []) = some name
entry_name (d ∷ dir) (c ∷ path) = if d == c then entry_name dir path else none
entry_name _ _ = none

-- `os.ReadDir`: the names of the files in a directory. Directories in it are not modelled; the
-- callers skip them.
unfoldable pub file_names : FilePath → Map FilePath Bytes → List Bytes
unfolding entry_name
file_names dir [] = []
file_names dir ((path, _) ∷ disk) =
    let rest = file_names dir disk in
    elim (entry_name dir path) [ none ↦ rest | some name ↦ name ∷ rest ]

unfoldable pub cache_dir : KeyStoreConfig → FilePath
cache_dir c = c.storage_dir ++ (text ".cache" ∷ [])

-- isCacheVariant
unfoldable pub is_cache_variant : Bytes → Bytes → Bool
is_cache_variant stem name =
    if has_suffix name (text ".toml")
    then (let candidate = trim_suffix name (text ".toml") in
        candidate == stem || has_prefix candidate (stem ++ text " "))
    else false

select : (Bytes → Bool) → List Bytes → List Bytes
select test [] = []
select test (name ∷ names) = let rest = select test names in if test name then name ∷ rest else rest

paths_in : FilePath → List Bytes → List FilePath
paths_in dir [] = []
paths_in dir (name ∷ names) = (dir ++ name ∷ []) ∷ paths_in dir names

-- cacheEntryPathsForHash
unfoldable pub cache_entry_paths_for_hash : Bytes → Exec (List FilePath)
unfolding select paths_in file_names cache_dir
cache_entry_paths_for_hash hash = do
  system_call
  system_call
  gets (λ s.
      paths_in (cache_dir s.config)
        (select (is_cache_variant (hex_encode hash)) (file_names (cache_dir s.config) s.disk)))

module _ (P : Platform) where
  -- cacheEntryIsLive
  unfoldable pub cache_entry_is_live : FilePath → Exec Bool
  cache_entry_is_live path = do
    bytes ← read_file path
    file ← or_raise (P.decode_file bytes) undecodable
    missing ← has_missing_references file.references
    pure (not missing)

  -- The loops of hasCacheEntryForHash and pruneDeadCacheEntries: dead entries are pruned.
  unfoldable pub scan_cache_entries : List FilePath → Bool → Exec Bool
  unfolding cache_entry_is_live
  scan_cache_entries [] found = pure found
  scan_cache_entries (path ∷ paths) found = do
    live ← attempt (cache_entry_is_live path)
    elim live [
      | ok true ↦ scan_cache_entries paths true
      | _ ↦ (remove_if_present path >> scan_cache_entries paths found)
    ]

  -- hasCacheEntryForHash
  unfoldable pub has_cache_entry_for_hash : Bytes → Exec Bool
  unfolding cache_entry_paths_for_hash scan_cache_entries
  has_cache_entry_for_hash hash = do
    paths ← cache_entry_paths_for_hash hash
    scan_cache_entries paths false

  -- pruneDeadCacheEntries
  unfoldable pub prune_dead_cache_entries : Exec (Unit {0})
  unfolding select paths_in file_names cache_dir scan_cache_entries
  prune_dead_cache_entries = do
    system_call
    system_call
    paths ← gets (λ s.
        paths_in (cache_dir s.config) (
          select (λ name. has_suffix name (text ".toml")) (file_names (cache_dir s.config) s.disk)))
    scan_cache_entries paths false
    pure tt

  -- ensureHashNotCached
  unfoldable pub ensure_hash_not_cached : Bytes → Exec (Unit {0})
  unfolding has_cache_entry_for_hash
  ensure_hash_not_cached hash = do found ← has_cache_entry_for_hash hash; require (not found) cached

last_name : FilePath → Bytes
last_name [] = text "."
last_name (name ∷ []) = name
last_name (_ ∷ rest) = last_name rest

absent_is_done : Result (Unit {0}) → Exec (Unit {0})
absent_is_done (err not_exist) = pure tt
absent_is_done (err e) = raise e
absent_is_done (ok _) = pure tt

-- moveToCache
unfoldable pub move_to_cache : FilePath → Exec (Unit {0})
unfolding select file_names cache_dir last_name absent_is_done
move_to_cache source = do
  system_call
  let name = last_name source
  system_call
  variants ← gets (λ s.
      select (is_cache_variant (trim_suffix name (text ".toml")))
        (file_names (cache_dir s.config) s.disk))
  elim variants [
    | _ ∷ _ ↦ remove_if_present source
    | [] ↦ do
      dir ← gets (λ s. cache_dir s.config)
      r ← attempt (rename source (dir ++ name ∷ []))
      absent_is_done r
  ]
