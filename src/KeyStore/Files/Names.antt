-- ===== src/KeyStore/Files/Names.antt =====
-- Names that two files have had, and DeleteFile of key_store.go.
use dps_files.Prelude.{subst, ◌≡◌, ◌≢◌, ◌∙◌, some, Bytes, arith, list_eq, nat_eq}
use dps_files.Prelude.Map.{lookup}
use dps_files.KeyStore.Types.{Store, File}
use dps_files.KeyStore.Exec.{ok, err, not_found}
use dps_files.KeyStore.Index.{get_file_by_name}
use dps_files.KeyStore.Files.{delete_file}
use dps_files.KeyStore.Files.Deletion.{delete_file-Deleted, delete_file-others, Deleted}

-- When a name has passed from one file to a later one and the earlier file is deleted without an error,
-- the later file is still known by its hash, but GetFileByName does not find it.
pub delete_file-get_file_by_name :
    (key other : Bytes) (file later : File) (s : Store)
    → key ≢ other
    → lookup key s.files ≡ some file
    → lookup other s.files ≡ some later
    → later.meta_data.file_name ≡ file.meta_data.file_name
    → (delete_file key s).0 ≡ ok tt
    → let t = (delete_file key s).1 in
      (lookup other t.files ≡ some later)
      × (get_file_by_name later.meta_data.file_name t ≡ (err not_found, t))
unfolding get_file_by_name
delete_file-get_file_by_name key other file later s n h g same done =
    let t = (delete_file key s).1 in
    let gone : Deleted key file s (ok tt) t =
      subst (λ r. Deleted key file s r t) done (delete_file-Deleted key file s h) in
    (delete_file-others key other s n ∙ g, ground (arith, same, gone.1))
