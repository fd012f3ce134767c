-- ===== src/Storage/Files/DeepClean.antt =====
-- deepCleanStorage of cmd/storage/filesystem.go: what it leaves in the three directories.
use dps_files.Storage.Files.Names.{
  any, keep-any, without-IsWithin, keep-without, file_names-erase, IsWithin-self, without,
  IsWithin-nil, without_all-IsWithin, IsWithin, file_names-erase_in, keep-erase_in,
}
use dps_files.Prelude.{
  has_suffix, text, sym, subst, suc, ℕ, Bool, ap, ◌∙◌, inr, inl, list_eq, nat_eq, arith, ◌++◌, ◌≡◌,
  Bytes, List, [], ◌∷◌,
}
use dps_files.KeyStore.Cache.{file_names}
use dps_files.KeyStore.Cleaning.{erase_in}
use dps_files.Prelude.Map.{erase, erase_absent}
use dps_files.KeyStore.Types.{Store, FilePath}
use dps_files.KeyStore.Exec.{ok, remove_if_present, remove, read_file, system_call}
use dps_files.KeyStore.Exec.Memory.{Result-cases, Ensures}
use dps_files.Storage.Files.{
  keep, kdht_names, remove_all, cleanup_all_kdht_files, count_dir_files, empty_directory,
  deep_clean_storage, subdirectory, DeepCleanResult,
}

-- A removal that reports no error erases the path.
remove_if_present-erase :
    (path : FilePath) (s : Store)
    → (remove_if_present path s).0 ≡ ok tt
    → (remove_if_present path s).1.disk ≡ erase path s.disk
unfolding remove_if_present remove read_file system_call
remove_if_present-erase path s h = ground (arith, erase_absent path s.disk)

remove_all-clears :
    (test : Bytes → Bool) (dir : FilePath) (ns : List Bytes) (removed total : ℕ) (s : Store)
    → IsWithin (keep test (file_names dir s.disk)) ns
    → (remove_all dir ns removed s).0 ≡ ok total
    → keep test (file_names dir (remove_all dir ns removed s).1.disk) ≡ []
unfolding remove_all
remove_all-clears test dir [] removed total s within h =
    IsWithin-nil (keep test (file_names dir s.disk)) within
remove_all-clears test dir (n ∷ ns) removed total s within h =
    let path = dir ++ n ∷ [] in
    let r = remove_if_present path s in
    elim (Result-cases r) [
      | inr (e, f) ↦ absurd (ground (arith, f, h))
      | inl (_, f) ↦
          let shorter : keep test (file_names dir r.1.disk)
              ≡ without n (keep test (file_names dir s.disk)) =
            ap (λ disk. keep test (file_names dir disk)) (remove_if_present-erase path s f)
            ∙ ap (keep test) (file_names-erase dir n s.disk)
            ∙ keep-without test n (file_names dir s.disk) in
          rw (remove_all, f)
            (remove_all-clears test dir ns (suc removed) total r.1
              (subst (λ names. IsWithin names ns) (sym shorter) (without-IsWithin n _ ns within))
              (ground (arith, f, h)))
    ]

-- An action after which no name of the directory passes the test.
abbrev Clears : (Bytes → Bool) → FilePath → Store → Type 0
Clears test dir t = keep test (file_names dir t.disk) ≡ []

empty_directory-clears :
    (dir : FilePath) (s : Store)
    → Ensures (λ (_ : ℕ) t. file_names dir t.disk ≡ []) (empty_directory dir s)
unfolding empty_directory count_dir_files system_call
empty_directory-clears dir s count h =
    let names = file_names dir s.disk in
    let gone : file_names dir (erase_in dir names s.disk) ≡ [] =
      file_names-erase_in dir names s.disk
      ∙ without_all-IsWithin names names (IsWithin-self names) in
    ground (arith, h, gone)

empty_directory-keeps :
    (test : Bytes → Bool) (dir other : FilePath) (s : Store)
    → Clears test dir s
    → Clears test dir (empty_directory other s).1
unfolding empty_directory count_dir_files system_call
empty_directory-keeps test dir other s h =
    ground (arith, h, keep-erase_in test dir other (file_names other s.disk) s.disk h)

-- What deepCleanStorage leaves of the three directories.
abbrev pub IsCleaned : FilePath → Store → Type 0
IsCleaned storage_dir t =
    (kdht_names storage_dir t ≡ [])
    × (file_names (subdirectory storage_dir (text "metadata")) t.disk ≡ [])
    × (file_names (subdirectory storage_dir (text ".cache")) t.disk ≡ [])

cleanup_all_kdht_files-clears :
    (storage_dir : FilePath) (s : Store)
    → Ensures (λ (_ : ℕ) t. kdht_names storage_dir t ≡ []) (cleanup_all_kdht_files storage_dir s)
unfolding cleanup_all_kdht_files kdht_names
cleanup_all_kdht_files-clears storage_dir s total h =
    let names = kdht_names storage_dir s in
    remove_all-clears (λ name. has_suffix name (text ".kdht"))
      (subdirectory storage_dir (text "data")) names 0 total s (IsWithin-self names) h

-- Emptying a directory makes no file in another one.
empty_directory-kdht :
    (storage_dir other : FilePath) (s : Store)
    → kdht_names storage_dir s ≡ []
    → kdht_names storage_dir (empty_directory other s).1 ≡ []
unfolding kdht_names
empty_directory-kdht storage_dir other s h =
    empty_directory-keeps (λ name. has_suffix name (text ".kdht"))
      (subdirectory storage_dir (text "data")) other s h

empty_directory-names :
    (dir other : FilePath) (s : Store)
    → file_names dir s.disk ≡ []
    → file_names dir (empty_directory other s).1.disk ≡ []
empty_directory-names dir other s h =
    sym (keep-any _) ∙ empty_directory-keeps any dir other s (keep-any (file_names dir s.disk) ∙ h)

pub deep_clean_storage-IsCleaned :
    (storage_dir : FilePath) (s : Store)
    → Ensures
        (λ (_ : DeepCleanResult) t. IsCleaned storage_dir t)
        (deep_clean_storage storage_dir s)
unfolding deep_clean_storage
deep_clean_storage-IsCleaned storage_dir s result h =
    let metadata = subdirectory storage_dir (text "metadata") in
    let cache = subdirectory storage_dir (text ".cache") in
    let a = cleanup_all_kdht_files storage_dir s in
    let b = empty_directory metadata a.1 in
    let c = empty_directory cache b.1 in
    elim (Result-cases a) [
      | inr (e, f) ↦ absurd (ground (arith, f, h))
      | inl (n, f) ↦ elim (Result-cases b) [
        | inr (e, g) ↦ absurd (ground (arith, f, g, h))
        | inl (m, g) ↦ elim (Result-cases c) [
          | inr (e, k) ↦ absurd (ground (arith, f, g, k, h))
          | inl (l, k) ↦
              let q : (deep_clean_storage storage_dir s).1 ≡ c.1 = ground (arith, f, g, k) in
              rw q (
                empty_directory-kdht storage_dir cache b.1 (
                    empty_directory-kdht storage_dir metadata a.1
                      (cleanup_all_kdht_files-clears storage_dir s n f)),
                empty_directory-names metadata cache b.1 (empty_directory-clears metadata a.1 m g),
                empty_directory-clears cache b.1 l k,
              )
        ]
      ]
    ]
