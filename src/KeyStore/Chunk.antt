-- ===== src/KeyStore/Chunk.antt =====
-- Chunks: file_reference.go, and `computeChunkKey` of files.go.
use dps_files.Prelude.Map.{erase, lookup, insert}
use dps_files.KeyStore.Exec.{
  missing_reference, remove_if_present, not_found, or_raise, Exec, pure, gets, modify, require,
  when, ◌>>=◌, ◌>>◌, system_call, write_file, read_file, size_mismatch, hash_mismatch,
}
use dps_files.Prelude.{
  [], set, if◌then◌else◌, ℕ, Option, none, some, List, ◌++◌, Bytes, length, get_elem?, put_le, text,
  eqb, ◌==◌, list_eq, nat_eq,
}
use dps_files.KeyStore.Types.{
  Store, Platform, FileReference, ChunkLoc, FilePath, uint32, get_local_block_location,
}

-- The slot of a file's reference list: out of range and nil are both `none`.
abbrev pub slot : List (Option FileReference) → ℕ → Option FileReference
slot refs i = elim (get_elem? refs i) [ none ↦ none | some r ↦ r ]

-- resolveChunk
unfoldable pub resolve_chunk : Bytes → Exec FileReference
resolve_chunk key = do
  indexed ← gets (λ s. lookup key s.chunk_index)
  loc ← or_raise indexed not_found
  owner ← gets (λ s. lookup loc.file_hash s.files)
  file ← or_raise owner not_found
  or_raise (slot file.references loc.chunk_index) missing_reference

-- The path to delete: the stored location if the parent has the reference and it is set.
unfoldable pub deletion_path : FilePath → Option FileReference → FilePath
deletion_path default none = default
deletion_path default (some ref) = if ref.location == [] then default else ref.location

-- `file.References[loc.ChunkIndex] = nil` in the map of files
unfoldable pub clear_slot : ChunkLoc → Store → Store
clear_slot loc s = elim (lookup loc.file_hash s.files) [
  | none ↦ s
  | some file ↦ record s {
    files =
        insert loc.file_hash (record file { references = set file.references loc.chunk_index none })
          s.files;
  }
]

unfoldable pub owned_slot : ChunkLoc → Store → Option FileReference
owned_slot loc s = elim (lookup loc.file_hash s.files) [
  | none ↦ none
  | some file ↦ slot file.references loc.chunk_index
]

-- DeleteFileReference
unfoldable pub delete_file_reference : Bytes → Exec (Unit {0})
unfolding deletion_path clear_slot owned_slot
delete_file_reference key = do
  indexed ← gets (λ s. lookup key s.chunk_index)
  loc ← or_raise indexed not_found
  path ← gets (λ s. deletion_path (get_local_block_location s.config key) (owned_slot loc s))
  modify (clear_slot loc)
  remove_if_present path
  modify (λ s. record s { chunk_index = erase key s.chunk_index })

module _ (P : Platform) where
  unfoldable pub compute_chunk_key : Bytes → ℕ → Bytes
  compute_chunk_key file_hash chunk_index = P.sha1 (file_hash ++ put_le 8 chunk_index)

  -- the block `if ks.config.VerifyOnWrite`
  unfoldable pub verify_written : FilePath → Bytes → FileReference → Exec (Unit {0})
  verify_written path bytes ref = do
    written ← read_file path
    require (eqb (length written) (length bytes)) size_mismatch
    require (P.sha256 written == ref.data_hash) hash_mismatch

  -- StoreFileReference; it returns the reference with the two fields that the source sets on it.
  unfoldable pub store_file_reference : FileReference → Bytes → Exec FileReference
  unfolding verify_written
  store_file_reference ref bytes = do
    require (eqb (uint32 (length bytes)) ref.size) size_mismatch
    require (P.sha256 bytes == ref.data_hash) hash_mismatch
    path ← gets (λ s. get_local_block_location s.config ref.key)
    system_call
    write_file path bytes
    verify ← gets (λ s. s.config.verify_on_write)
    when verify (verify_written path bytes ref)
    let loc : ChunkLoc = record { file_hash = ref.parent; chunk_index = ref.file_index }
    modify (λ s. record s { chunk_index = insert ref.key loc s.chunk_index })
    pure (record ref { location = path; protocol = text "file" })

  -- LoadFileReferenceData
  unfoldable pub load_file_reference_data : Bytes → Exec Bytes
  load_file_reference_data key = do
    ref ← resolve_chunk key
    bytes ← read_file ref.location
    require (P.sha256 bytes == ref.data_hash) hash_mismatch
    pure bytes
