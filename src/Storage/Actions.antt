-- ===== src/Storage/Actions.antt =====
-- The local actions of cmd/storage: store.go (verifyChunks, executeStoreTargets in the mode `run`),
-- delete.go (executeDeleteAction) and refreshMenuContext of main.go. A file's name has no separator.
pub mod Copies
pub mod Whole
use dps_files.Prelude.{
  none, some, [], ◌∷◌, true, false, ◌++◌, ◌==◌, text, list_eq, nat_eq, length, Option, List, Bool,
  Bytes, ℕ, eqb, ltb, suc, if◌then◌else◌, not,
}
use dps_files.KeyStore.Types.{Store, Platform, File, FileReference, FilePath, MetaData}
use dps_files.KeyStore.Exec.{
  Exec, Result, Error, ok, err, pure, raise, require, attempt, gets, system_call, cached, panicked,
  hash_mismatch, ◌>>=◌, ◌>>◌,
}
use dps_files.KeyStore.Stream.{load_block}
use dps_files.KeyStore.Index.{list_known_files}
use dps_files.KeyStore.Files.{load_and_store_file_local, base_name, delete_file}
use dps_files.KeyStore.Reassemble.{hash_file, reassemble_file_to_path}
use dps_files.KeyStore.Start.{reload_local_state}
use dps_files.Storage.Menu.{Lines, Answer, MenuError, chosen, failed}
use dps_files.Storage.Select.{select_entry}
use dps_files.Storage.Files.{get_files_in_directory}

-- The order of strings.
unfoldable pub less : Bytes → Bytes → Bool
less xs [] = false
less [] (y ∷ ys) = true
less (x ∷ xs) (y ∷ ys) = let rest = less xs ys in if eqb x y then rest else ltb x y

module _ {ℓ} {A : Type ℓ} (before : A → A → Bool) where
  insert_sorted : A → List A → List A
  insert_sorted x [] = x ∷ []
  insert_sorted x (y ∷ ys) =
      let rest = insert_sorted x ys in if before y x then y ∷ rest else x ∷ y ∷ ys

  -- `sort.Strings` and `sort.Slice`
  unfoldable pub sort : List A → List A
  unfolding insert_sorted
  sort [] = []
  sort (x ∷ xs) = insert_sorted x (sort xs)

-- the order of the entries: by name, then by hash
unfoldable pub entry_less : MetaData → MetaData → Bool
unfolding less
entry_less a b =
    if a.file_name == b.file_name
    then less a.file_hash b.file_hash
    else less a.file_name b.file_name

-- copyOutputPath
abbrev pub copy_output_path : FilePath → Bytes → FilePath
copy_output_path storage_dir name = storage_dir ++ (text "copy." ++ name) ∷ []

-- A file to store, with what its mode and the name of the intent's temporary file will be.
pub record Target : Type 0 where
  pub path : FilePath
  pub permissions : ℕ
  pub random : Bytes

-- What became of a target: skipped as cached, stored, or stored and reassembled.
pub data Storing : Type 0 where
  skipped : Storing
  kept copied : File → Storing

-- `last.Location` of the references
last_set : FileReference → List (Option FileReference) → Bool
last_set ref [] = true
last_set ref (none ∷ []) = false
last_set ref (_ ∷ refs) = last_set ref refs

-- `first.Location` and `last.Location`, which panic on nil
unfoldable pub ends_set : List (Option FileReference) → Bool
unfolding last_set
ends_set [] = true
ends_set (none ∷ refs) = false
ends_set (some ref ∷ refs) = last_set ref refs

module _ (P : Platform) where
  -- verifyChunks
  unfoldable pub verify_chunks : List (Option FileReference) → Exec (Unit {0})
  verify_chunks [] = pure tt
  verify_chunks (ref ∷ refs) = load_block P ref >> verify_chunks refs

  -- the phases reassemble and hash-check, from createDirPath on
  unfoldable pub copy_back : FilePath → File → Exec Storing
  copy_back out file = do
    system_call
    reassemble_file_to_path P file.meta_data.file_hash out
    hashed ← hash_file P out
    require (file.meta_data.file_hash == hashed.0) hash_mismatch
    pure (copied file)

  -- what follows LoadAndStoreFileLocal
  unfoldable pub after_store : Bool → FilePath → Bytes → Result File → Exec Storing
  unfolding ends_set verify_chunks copy_back
  after_store reassemble dir name (err cached) = pure skipped
  after_store reassemble dir name (err e) = raise e
  after_store reassemble dir name (ok file) = do
    require (ends_set file.references) panicked
    verify_chunks file.references
    elim reassemble [ true ↦ copy_back (copy_output_path dir name) file | false ↦ pure (kept file) ]

  -- the body of executeStoreTargets' loop in the mode `run`
  unfoldable pub store_target : Bool → FilePath → Target → Exec Storing
  unfolding after_store
  store_target reassemble dir target = do
    hash_file P target.path
    stored ← attempt (load_and_store_file_local P target.random target.permissions target.path)
    after_store reassemble dir (base_name P target.path) stored

  -- executeStoreTargets in the mode `run`
  unfoldable pub execute_store_targets : Bool → FilePath → List Target → Exec (List Storing)
  execute_store_targets reassemble dir [] = pure []
  execute_store_targets reassemble dir (target ∷ targets) = do
    stored ← store_target reassemble dir target
    rest ← execute_store_targets reassemble dir targets
    pure (stored ∷ rest)

  -- refreshMenuContext: the indexed files and the number of entries
  unfoldable pub refresh_menu_context : FilePath → Exec (List Bytes × ℕ)
  unfolding sort less
  refresh_menu_context upload_directory = do
    reload_local_state P
    files ← get_files_in_directory upload_directory
    count ← gets (λ s. length (list_known_files s.files))
    pure (sort less files, count)

-- What executeDeleteAction comes to.
pub data Deleting : Type 0 where
  nothing : Deleting
  back : MenuError → Deleting
  deleted : MetaData → Deleting
  refused : Error → Deleting

report : MetaData → Result (Unit {0}) → Deleting
report md (ok _) = deleted md
report md (err e) = refused e

delete_selected : Answer (Option MetaData) → Store → Deleting × Store
unfolding report
delete_selected (failed e) s = (back e, s)
delete_selected (chosen none) s = (nothing, s)
delete_selected (chosen (some md)) s = let r = delete_file md.file_hash s in (report md r.0, r.1)

-- executeDeleteAction in the mode `run`
unfoldable pub execute_delete_action : Lines → Store → Deleting × Lines × Store
unfolding delete_selected sort entry_less
execute_delete_action lines s = elim (sort entry_less (list_known_files s.files)) [
  | [] ↦ (nothing, lines, s)
  | (md ∷ entries) ↦
      let answer = select_entry (md ∷ entries) lines in
      let r = delete_selected answer.0 s in (r.0, answer.1, r.1)
]
