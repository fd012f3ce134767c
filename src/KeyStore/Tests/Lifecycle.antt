-- ===== src/KeyStore/Tests/Lifecycle.antt =====
-- The theorems about names, failure and verification at concrete inputs.
use dps_files.KeyStore.Cleaning.Laws.{cleanup-Cleaned, Cleaned}
use dps_files.KeyStore.Cleaning.{cleanup}
use dps_files.KeyStore.Start.Loading.{load_entry-track}
use dps_files.KeyStore.Index.{track, get_file_by_name}
use dps_files.KeyStore.Samples.{
  hello_key, config, hello_reference, plain, empty, hello, hello_file, hello_stored,
}
use dps_files.KeyStore.Types.{
  get_local_block_location, Platform, metadata_path, Store, File, refused,
}
use dps_files.Prelude.{
  ◌++◌, hex_encode, AreBytes, replicate, ◌≡◌, ◌≢◌, refl, none, some, [], ◌∷◌, text, arith, list_eq,
  nat_eq,
}
use dps_files.KeyStore.Start.{load_entry}
use dps_files.Prelude.Map.{erase, lookup}
use dps_files.KeyStore.Exec.{remove_if_present, stat, ok, err, not_found, io_failed}
use dps_files.KeyStore.Files.{
  drop_chunk, store_and_commit, load_and_commit, commit_file, delete_file, loaded_meta_data,
}
use dps_files.KeyStore.Verify.{check_chunk, verify_file}
use dps_files.KeyStore.RoundTrip.Loading.{load_and_commit-eq-store_and_commit}
use dps_files.KeyStore.Files.Names.{delete_file-get_file_by_name}
use dps_files.KeyStore.Verify.Soundness.{verify_file_sound, IsIntact, verify_file_complete}
use dps_files.KeyStore.Files.Failure.{commit_file-refused}

commit_file-refused_example :
    let r = commit_file plain hello_file (record empty { faults = some refused ∷ [] }) in
    (r.0 ≡ err io_failed) × (lookup hello r.1.files ≢ none)
commit_file-refused_example =
    commit_file-refused plain hello_file (record empty { faults = some refused ∷ [] }) [] refl

-- A second file of the same name, under the hash 1.
abbrev later_file : File
later_file = record hello_file { meta_data = record (hello_file.meta_data) { file_hash = 1 ∷ [] } }

abbrev both : Store
both = record hello_stored {
  files = (hello, hello_file) ∷ (1 ∷ [], later_file) ∷ [];
  files_by_name = (text "a.txt", 1 ∷ []) ∷ [];
}

delete_file-get_file_by_name_example :
    let t = (delete_file hello both).1 in
    (lookup (1 ∷ []) t.files ≡ some later_file)
    × (get_file_by_name (text "a.txt") t ≡ (err not_found, t))
unfolding lookup delete_file list_eq nat_eq drop_chunk remove_if_present erase
delete_file-get_file_by_name_example =
    delete_file-get_file_by_name hello (1 ∷ []) hello_file later_file both (λ e. cc) refl refl refl
      refl

verify_file_sound_example : IsIntact plain hello_file.references hello_stored.disk
unfolding lookup verify_file list_eq nat_eq check_chunk stat
verify_file_sound_example = verify_file_sound plain hello hello_file hello_stored refl refl refl

verify_file_complete_example : verify_file plain hello hello_stored ≡ (ok [], hello_stored)
unfolding lookup list_eq nat_eq
verify_file_complete_example =
    verify_file_complete plain hello hello_file hello_stored refl refl
      ((hello, refl, refl, refl), tt)

load_and_commit-eq-store_and_commit_example :
    let md = loaded_meta_data plain (text "a.txt") 0o600 hello empty in
    load_and_commit plain md hello empty ≡ store_and_commit plain md hello empty
load_and_commit-eq-store_and_commit_example =
    load_and_commit-eq-store_and_commit plain (text "a.txt") hello 0o600 empty (omega arith)
      (omega arith) refl

-- A file on disk whose hash has 32 bytes.
abbrev kept_file : File
kept_file = record hello_file {
  meta_data = record (hello_file.meta_data) { file_hash = replicate 32 0 };
  references =
      some (record hello_reference { location = get_local_block_location config hello_key }) ∷ [];
}

abbrev reading : Platform
reading = record plain { decode_file = λ bytes. some kept_file }

abbrev stopped : Store
stopped = record empty { disk = (metadata_path config (replicate 32 0), text "toml") ∷ [] }

zeros-AreBytes : AreBytes (replicate 32 0)
zeros-AreBytes = ground arith

load_entry-track_example :
    load_entry reading (hex_encode (replicate 32 0) ++ text ".toml") stopped
    ≡ (ok tt, track kept_file stopped)
unfolding lookup list_eq metadata_path nat_eq hex_encode
load_entry-track_example =
    load_entry-track reading kept_file (text "toml") stopped refl refl zeros-AreBytes refl refl
      (refl, tt)

cleanup-Cleaned_example : let r = cleanup hello_stored in Cleaned hello_stored r.0 r.1
cleanup-Cleaned_example = cleanup-Cleaned hello_stored
