-- ===== src/KeyStore/Files/Failure.antt =====
-- What a store that fails in fileToMemory of key_store.go leaves behind.
use dps_files.KeyStore.Types.{
  get_local_block_location, ChunkLoc, Fault, Store, Platform, File, FileReference, refused,
}
use dps_files.Prelude.{
  set, inr, inl, Option-cases, list_eq, nat_eq, ◌≡◌, ◌≢◌, refl, Option, none, some, List, [], ◌∷◌,
  Bytes, arith,
}
use dps_files.KeyStore.Index.{track, file_to_memory}
use dps_files.KeyStore.Exec.{system_call, ok, err, io_failed}
use dps_files.KeyStore.Files.{file_to_memory, delete_references, commit_file}
use dps_files.Prelude.Map.{lookup, lookup-insert}
use dps_files.KeyStore.Exec.Memory.{remove_if_present-memory}
use dps_files.KeyStore.Chunk.{clear_slot, deletion_path, owned_slot, delete_file_reference}

clear_slot-lookup :
    (loc : ChunkLoc) (hash : Bytes) (s : Store)
    → lookup hash s.files ≢ none
    → lookup hash (clear_slot loc s).files ≢ none
unfolding clear_slot
clear_slot-lookup loc hash s h = elim (Option-cases (lookup loc.file_hash s.files)) [
  | inl n ↦ ground (arith, h, n)
  | inr (file, e) ↦
      let cleared = record file { references = set file.references loc.chunk_index none } in
      ground (arith, h, e, lookup-insert hash loc.file_hash cleared s.files)
]

delete_file_reference-lookup :
    (key hash : Bytes) (s : Store)
    → lookup hash s.files ≢ none
    → lookup hash (delete_file_reference key s).1.files ≢ none
unfolding delete_file_reference
delete_file_reference-lookup key hash s h = elim (Option-cases (lookup key s.chunk_index)) [
  | inl n ↦ ground (arith, h, n)
  | inr (loc, e) ↦
      let path = deletion_path (get_local_block_location s.config key) (owned_slot loc s) in
      ground
        (arith, e, clear_slot-lookup loc hash s h, remove_if_present-memory path (clear_slot loc s))
]

delete_references-lookup :
    (refs : List (Option FileReference)) (hash : Bytes) (s : Store)
    → lookup hash s.files ≢ none
    → lookup hash (delete_references refs s).1.files ≢ none
unfolding delete_references
delete_references-lookup [] hash s h = h
delete_references-lookup (none ∷ refs) hash s h = delete_references-lookup refs hash s h
delete_references-lookup (some ref ∷ refs) hash s h =
    delete_references-lookup refs hash (delete_file_reference ref.key s).1
      (delete_file_reference-lookup ref.key hash s h)

pub delete_references_ok :
    (refs : List (Option FileReference)) (s : Store) → (delete_references refs s).0 ≡ ok tt
unfolding delete_references
delete_references_ok [] s = refl
delete_references_ok (none ∷ refs) s = delete_references_ok refs s
delete_references_ok (some ref ∷ refs) s =
    delete_references_ok refs (delete_file_reference ref.key s).1

file_to_memory-refused :
    (P : Platform) (file : File) (s : Store) (rest : List (Option Fault))
    → s.faults ≡ some refused ∷ rest
    → file_to_memory P file s ≡ (err io_failed, record (track file s) { faults = rest })
unfolding file_to_memory system_call track
file_to_memory-refused P file s rest h = rw h refl

-- When the first call of the operating system in fileToMemory is refused, the store fails with that
-- error, and the file whose store has failed is listed under its hash all the same.
pub commit_file-refused :
    (P : Platform) (file : File) (s : Store) (rest : List (Option Fault))
    → s.faults ≡ some refused ∷ rest
    → let r = commit_file P file s in
      (r.0 ≡ err io_failed) × (lookup file.meta_data.file_hash r.1.files ≢ none)
unfolding commit_file track
commit_file-refused P file s rest h =
    let hash = file.meta_data.file_hash in
    let t = record (track file s) { faults = rest } in
    let known : lookup hash t.files ≢ none = ground (arith, lookup-insert hash hash file s.files) in
    let failed = file_to_memory-refused P file s rest h in
    let all = delete_references_ok file.references t in
    rw failed (
      ground (arith, all),
      ground (arith, all, delete_references-lookup file.references hash t known),
    )
