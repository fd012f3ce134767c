-- ===== src/KeyStore/Verify.antt =====
-- verify.go: the deep integrity scan, which changes nothing.
pub mod Soundness
use dps_files.Prelude.{
  ℕ, suc, true, false, Option, none, some, List, [], ◌∷◌, ◌++◌, Bytes, replicate, eqb, ◌==◌,
  list_eq, nat_eq, if◌then◌else◌,
}
use dps_files.Prelude.Map.{lookup, Map}
use dps_files.KeyStore.Types.{Platform, File, FileReference, MetaData, uint32}
use dps_files.KeyStore.Exec.{Exec, Result, ok, err, pure, gets, attempt, ◌>>=◌, read_file, stat}

pub data Problem : Type 0 where
  nil_reference missing_file wrong_size read_error wrong_hash no_such_file : Problem

pub record ChunkError : Type 0 where
  pub file_hash : Bytes
  pub file_name : Bytes
  pub chunk_index : ℕ
  pub chunk_key : Bytes
  pub problem : Problem

module _ (P : Platform) where
  -- what is wrong with the chunk of a reference, in the order of the tests
  unfoldable pub check_data : FileReference → Bytes → Option Problem
  check_data ref bytes = if P.sha256 bytes == ref.data_hash then none else some wrong_hash

  unfoldable pub check_read : FileReference → Result Bytes → Option Problem
  unfolding check_data
  check_read ref (err e) = some read_error
  check_read ref (ok bytes) = check_data ref bytes

  unfoldable pub check_chunk : FileReference → Exec (Option Problem)
  unfolding check_read
  check_chunk ref = do
    info ← attempt (stat ref.location)
    elim info [
      | err e ↦ pure (some missing_file)
      | ok size ↦ elim (eqb (uint32 size) ref.size) [
        | false ↦ pure (some wrong_size)
        | true ↦ do bytes ← attempt (read_file ref.location); pure (check_read ref bytes)
      ]
    ]

  unfoldable pub chunk_error : Bytes → MetaData → FileReference → Problem → ChunkError
  chunk_error hash md ref p = record {
    file_hash = hash;
    file_name = md.file_name;
    chunk_index = ref.file_index;
    chunk_key = ref.key;
    problem = p;
  }

  unfoldable pub add_problem :
      Bytes → MetaData → FileReference → Option Problem → List ChunkError → List ChunkError
  add_problem hash md ref none errs = errs
  add_problem hash md ref (some p) errs = chunk_error hash md ref p ∷ errs

  -- verifyFileChunks
  unfoldable pub verify_file_chunks :
      Bytes → MetaData → ℕ → List (Option FileReference) → Exec (List ChunkError)
  unfolding add_problem chunk_error
  verify_file_chunks hash md i [] = pure []
  verify_file_chunks hash md i (none ∷ refs) = do
    errs ← verify_file_chunks hash md (suc i) refs
    let e : ChunkError = record {
      file_hash = hash;
      file_name = md.file_name;
      chunk_index = uint32 i;
      chunk_key = replicate 20 0;
      problem = nil_reference;
    }
    pure (e ∷ errs)
  verify_file_chunks hash md i (some ref ∷ refs) = do
    found ← check_chunk ref
    errs ← verify_file_chunks hash md (suc i) refs
    pure (add_problem hash md ref found errs)

  -- VerifyFile
  unfoldable pub verify_file : Bytes → Exec (List ChunkError)
  unfolding verify_file_chunks
  verify_file key = do
    found ← gets (λ s. lookup key s.files)
    elim found [
      | none ↦ pure (
          record {
            file_hash = key;
            file_name = [];
            chunk_index = 0;
            chunk_key = replicate 20 0;
            problem = no_such_file;
          }
          ∷ [])
      | some file ↦ verify_file_chunks key file.meta_data 0 file.references
    ]

  verify_files : Map Bytes File → Exec (List ChunkError)
  unfolding verify_file_chunks
  verify_files [] = pure []
  verify_files ((hash, file) ∷ files) = do
    errs ← verify_file_chunks hash file.meta_data 0 file.references
    rest ← verify_files files
    pure (errs ++ rest)

  -- VerifyAll
  unfoldable pub verify_all : Exec (List ChunkError)
  unfolding verify_files
  verify_all = do files ← gets (λ s. s.files); verify_files files
