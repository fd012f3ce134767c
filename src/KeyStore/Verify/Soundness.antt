-- ===== src/KeyStore/Verify/Soundness.antt =====
-- What VerifyFile finds, when no call of the operating system fails.
use dps_files.KeyStore.Verify.{
  ChunkError, add_problem, wrong_size, wrong_hash, eqb, check_data, Problem, check_read,
  missing_file, check_chunk, verify_file_chunks, verify_file,
}
use dps_files.Prelude.{
  ◌==◌, if◌then◌else◌, list_eq, nat_eq, ℕ, suc, ◌≡◌, refl, inl, inr, Option, none, some, List, [],
  ◌∷◌, Bytes, length, Option-cases, arith, ==→eq, ==_refl,
}
use dps_files.Prelude.Map.{Map, lookup}
use dps_files.KeyStore.Types.{Store, Platform, FilePath, File, FileReference, MetaData, uint32}
use dps_files.KeyStore.Exec.{ok, read_file, stat, system_call}

module _ (P : Platform) where
  -- The reference's location holds bytes of its size and hash.
  abbrev pub HasChunk : FileReference → Map FilePath Bytes → Type 0
  HasChunk ref disk =
      (bytes : Bytes) × (lookup ref.location disk ≡ some bytes)
      × (uint32 (length bytes) ≡ ref.size)
      × (P.sha256 bytes ≡ ref.data_hash)

  -- Every reference is set and has its chunk.
  abbrev pub IsIntact : List (Option FileReference) → Map FilePath Bytes → Type 0
  IsIntact [] disk = Unit {0}
  IsIntact (none ∷ refs) disk = ⊥
  IsIntact (some ref ∷ refs) disk = HasChunk ref disk × IsIntact refs disk

  check_chunk-missing :
      (ref : FileReference) (s : Store)
      → s.faults ≡ []
      → lookup ref.location s.disk ≡ none
      → check_chunk P ref s ≡ (ok (some missing_file), s)
  unfolding check_chunk stat read_file system_call
  check_chunk-missing ref s f n = ground arith

  -- What is found of bytes that are there.
  abbrev judged : FileReference → Bytes → Option Problem
  judged ref bytes =
      if eqb (uint32 (length bytes)) ref.size
      then (if P.sha256 bytes == ref.data_hash then none else some wrong_hash)
      else some wrong_size

  check_chunk-present :
      (ref : FileReference) (bytes : Bytes) (s : Store)
      → s.faults ≡ []
      → lookup ref.location s.disk ≡ some bytes
      → check_chunk P ref s ≡ (ok (judged ref bytes), s)
  unfolding check_chunk check_read check_data stat read_file system_call
  check_chunk-present ref bytes s f n = ground arith

  check_chunk-HasChunk :
      (ref : FileReference) (s : Store)
      → s.faults ≡ []
      → (check_chunk P ref s).0 ≡ ok none
      → HasChunk ref s.disk
  check_chunk-HasChunk ref s f h = elim (Option-cases (lookup ref.location s.disk)) [
    | inl n ↦ absurd (ground (arith, check_chunk-missing ref s f n))
    | inr (bytes, e) ↦
        let present = check_chunk-present ref bytes s f e in
        (
          bytes,
          e,
          ground (arith, h, present),
          ground (arith, h, present, ==→eq (P.sha256 bytes) ref.data_hash),
        )
  ]

  check_chunk_ok :
      (ref : FileReference) (s : Store)
      → s.faults ≡ []
      → (p : Option Problem) × (check_chunk P ref s ≡ (ok p, s))
  check_chunk_ok ref s f = elim (Option-cases (lookup ref.location s.disk)) [
    | inl n ↦ (some missing_file, check_chunk-missing ref s f n)
    | inr (bytes, e) ↦ (judged ref bytes, check_chunk-present ref bytes s f e)
  ]

  module _ (hash : Bytes) (md : MetaData) where
    verify_file_chunks_ok :
        (refs : List (Option FileReference)) (i : ℕ) (s : Store)
        → s.faults ≡ []
        → (errs : List ChunkError) × (verify_file_chunks P hash md i refs s ≡ (ok errs, s))
    unfolding verify_file_chunks
    verify_file_chunks_ok [] i s f = ([], refl)
    verify_file_chunks_ok (none ∷ refs) i s f =
        let (errs, e) = verify_file_chunks_ok refs (suc i) s f in rw e (_, refl)
    verify_file_chunks_ok (some ref ∷ refs) i s f =
        let (p, c) = check_chunk_ok ref s f in
        let (errs, e) = verify_file_chunks_ok refs (suc i) s f in rw (c, e) (_, refl)

    verify_file_chunks-IsIntact :
        (refs : List (Option FileReference)) (i : ℕ) (s : Store)
        → s.faults ≡ []
        → (verify_file_chunks P hash md i refs s).0 ≡ ok []
        → IsIntact refs s.disk
    unfolding verify_file_chunks add_problem
    verify_file_chunks-IsIntact [] i s f h = tt
    verify_file_chunks-IsIntact (none ∷ refs) i s f h =
        let (errs, e) = verify_file_chunks_ok refs (suc i) s f in ground (arith, e, h)
    verify_file_chunks-IsIntact (some ref ∷ refs) i s f h =
        let (p, c) = check_chunk_ok ref s f in
        let (errs, e) = verify_file_chunks_ok refs (suc i) s f in
        let clean : p ≡ none = ground (arith, c, e, h) in
        let rest : errs ≡ [] = ground (arith, c, e, h, clean) in
        (
          check_chunk-HasChunk ref s f (ground (arith, c, clean)),
          verify_file_chunks-IsIntact refs (suc i) s f (ground (arith, e, rest)),
        )

    IsIntact-verify_file_chunks :
        (refs : List (Option FileReference)) (i : ℕ) (s : Store)
        → s.faults ≡ []
        → IsIntact refs s.disk
        → verify_file_chunks P hash md i refs s ≡ (ok [], s)
    unfolding verify_file_chunks add_problem
    IsIntact-verify_file_chunks [] i s f h = refl
    IsIntact-verify_file_chunks (none ∷ refs) i s f h = absurd h
    IsIntact-verify_file_chunks (some ref ∷ refs) i s f ((bytes, there, size, same), h) =
        let present = check_chunk-present ref bytes s f there in
        let rest = IsIntact-verify_file_chunks refs (suc i) s f h in
        let clean : judged ref bytes ≡ none = ground (arith, size, same, ==_refl ref.data_hash) in
        rw (present, clean, rest) refl

  -- When no call of the operating system fails and VerifyFile finds nothing wrong with a file, then every
  -- one of its references is set and has at its location bytes of its size and its SHA-256 hash.
  pub verify_file_sound :
      (key : Bytes) (file : File) (s : Store)
      → s.faults ≡ []
      → lookup key s.files ≡ some file
      → (verify_file P key s).0 ≡ ok []
      → IsIntact file.references s.disk
  unfolding verify_file
  verify_file_sound key file s f h clean =
      verify_file_chunks-IsIntact key file.meta_data file.references 0 s f
        (ground (arith, h, clean))

  -- When no call of the operating system fails and every reference of a file is set and has at its
  -- location bytes of its size and its SHA-256 hash, VerifyFile finds nothing wrong and changes nothing.
  pub verify_file_complete :
      (key : Bytes) (file : File) (s : Store)
      → s.faults ≡ []
      → lookup key s.files ≡ some file
      → IsIntact file.references s.disk
      → verify_file P key s ≡ (ok [], s)
  unfolding verify_file
  verify_file_complete key file s f h intact =
      let e = IsIntact-verify_file_chunks key file.meta_data file.references 0 s f intact in
      ground (arith, h, e)
