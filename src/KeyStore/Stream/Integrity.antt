-- ===== src/KeyStore/Stream/Integrity.antt =====
-- What StreamFile of key_store.go gives to its writer.
use dps_files.KeyStore.Exec.{Error, ok, err, Result}
use dps_files.KeyStore.Stream.{check_stream, load_block, stream_blocks, stream_file, buffer}
use dps_files.Prelude.{
  ap, list_eq, nat_eq, sym, ℕ, ◌+◌, ◌≡◌, ◌⊎◌, inl, inr, refl, ◌∙◌, Option, none, some, List, [],
  ◌∷◌, ◌++◌, Bytes, length, arith, length-append,
}
use mathlib.Core.List.{append_assoc, append-nil}
use dps_files.Prelude.Map.{lookup}
use dps_files.KeyStore.Types.{Store, Platform, File, FileReference, uint32}
use dps_files.KeyStore.Exec.Memory.{Result-cases}
use dps_files.KeyStore.Index.{file_from_memory}

module _ (P : Platform) where
  -- The text is the chunks of some first references, each with its reference's hash and size.
  abbrev pub IsVerified : List (Option FileReference) → Bytes → Type 0
  IsVerified [] out = out ≡ []
  IsVerified (none ∷ refs) out = out ≡ []
  IsVerified (some ref ∷ refs) out =
      (out ≡ [])
      ⊎ ((block : Bytes) × (rest : Bytes) × (out ≡ block ++ rest)
          × (P.sha256 block ≡ ref.data_hash)
          × (uint32 (length block) ≡ ref.size)
          × IsVerified refs rest)

  IsVerified-nil : (refs : List (Option FileReference)) → IsVerified refs []
  IsVerified-nil [] = refl
  IsVerified-nil (none ∷ refs) = refl
  IsVerified-nil (some ref ∷ refs) = inl refl

  load_block-checked :
      (ref : FileReference) (s : Store) (block : Bytes)
      → (load_block P (some ref) s).0 ≡ ok block
      → (P.sha256 block ≡ ref.data_hash) × (uint32 (length block) ≡ ref.size)
  unfolding load_block
  load_block-checked ref s block h = ground arith

  -- What the loop has written and hashed, and how it ended.
  abbrev Ends : Bytes → ℕ → Bytes → Result (Bytes × ℕ) → Type 0
  Ends hashed written out (ok (h, n)) = (h ≡ hashed ++ out) × (n ≡ written + length out)
  Ends hashed written out (err e) = Unit {0}

  Ends-append :
      (hashed block out : Bytes) (written : ℕ) (r : Result (Bytes × ℕ))
      → Ends (hashed ++ block) (written + length block) out r
      → Ends hashed written (block ++ out) r
  Ends-append hashed block out written (ok (h, n)) (same, sum) =
      (same ∙ append_assoc hashed block out, omega (arith, length-append block out))
  Ends-append hashed block out written (err e) ends = tt

  check_stream-ok :
      (file : File) (out : Bytes) (r : Result (Bytes × ℕ))
      → Ends [] 0 out r
      → check_stream P buffer file r ≡ ok tt
      → (length out ≡ file.meta_data.total_size) × (P.sha256 out ≡ file.meta_data.file_hash)
  check_stream-ok file out (ok (h, n)) (same, sum) checked = ground (arith, same, sum)
  check_stream-ok file out (err e) ends checked = absurd (ground arith)

  abbrev Outcome : List (Option FileReference) → Bytes → ℕ → Bytes → Store → Type 0
  Outcome refs hashed written w s =
      let r = stream_blocks P buffer refs hashed written w s in
      (out : Bytes) × (r.0.1 ≡ w ++ out) × IsVerified refs out × Ends hashed written out r.0.0

  module _ (ref : Option FileReference) (refs : List (Option FileReference)) (s : Store) where
    stream_blocks-next :
        (hashed : Bytes) (written : ℕ) (w block : Bytes)
        → (load_block P ref s).0 ≡ ok block
        → stream_blocks P buffer (ref ∷ refs) hashed written w s
          ≡ stream_blocks P buffer refs
              (hashed ++ block)
              (written + length block)
              (w ++ block)
              (load_block P ref s).1
    unfolding stream_blocks buffer
    stream_blocks-next hashed written w block h = ground arith

    stream_blocks-stop :
        (hashed : Bytes) (written : ℕ) (w : Bytes) (e : Error)
        → (load_block P ref s).0 ≡ err e
        → stream_blocks P buffer (ref ∷ refs) hashed written w s
          ≡ ((err e, w), (load_block P ref s).1)
    unfolding stream_blocks buffer
    stream_blocks-stop hashed written w e h = ground arith

  stream_blocks-Outcome_some :
      (ref : FileReference) (refs : List (Option FileReference))
      → ((hashed : Bytes) (written : ℕ) (w : Bytes) (s : Store) → Outcome refs hashed written w s)
      → (hashed : Bytes) (written : ℕ) (w : Bytes) (s : Store)
      → Outcome (some ref ∷ refs) hashed written w s
  stream_blocks-Outcome_some ref refs rest hashed written w s =
      elim (Result-cases (load_block P (some ref) s)) [
        | inr (e, h) ↦
            rw (stream_blocks-stop (some ref) refs s hashed written w e h)
              ([], sym (append-nil w), inl refl, tt)
        | inl (block, h) ↦
            let (same, sized) = load_block-checked ref s block h in
            let t = (load_block P (some ref) s).1 in
            let (out, wrote, good, ends) =
              rest (hashed ++ block) (written + length block) (w ++ block) t in
            rw (stream_blocks-next (some ref) refs s hashed written w block h) (
              block ++ out,
              wrote ∙ append_assoc w block out,
              inr (block, out, refl, same, sized, good),
              Ends-append hashed block out written _ ends,
            )
      ]

  stream_blocks-Outcome :
      (refs : List (Option FileReference)) (hashed : Bytes) (written : ℕ) (w : Bytes) (s : Store)
      → Outcome refs hashed written w s
  unfolding stream_blocks load_block
  stream_blocks-Outcome [] hashed written w s =
      ([], sym (append-nil w), refl, (sym (append-nil hashed), omega arith))
  stream_blocks-Outcome (none ∷ refs) hashed written w s = ([], sym (append-nil w), refl, tt)
  stream_blocks-Outcome (some ref ∷ refs) hashed written w s =
      stream_blocks-Outcome_some ref refs (stream_blocks-Outcome refs) hashed written w s

  file_from_memory-state : (key : Bytes) (s : Store) → (file_from_memory key s).1 ≡ s
  unfolding file_from_memory
  file_from_memory-state key s = ground arith

  pub file_from_memory-known :
      (key : Bytes) (file : File) (s : Store)
      → (file_from_memory key s).0 ≡ ok file
      → lookup key s.files ≡ some file
  unfolding file_from_memory
  file_from_memory-known key file s h = ground arith

  -- What StreamFile does once the file is found.
  stream_file-found :
      (key : Bytes) (file : File) (s : Store)
      → (file_from_memory key s).0 ≡ ok file
      → let r = stream_blocks P buffer file.references [] 0 [] s in
        stream_file P buffer key [] s ≡ ((check_stream P buffer file r.0.0, r.0.1), r.1)
  unfolding stream_file
  stream_file-found key file s h = ground (arith, file_from_memory-state key s)

  stream_file-missing :
      (key : Bytes) (s : Store) (e : Error)
      → (file_from_memory key s).0 ≡ err e
      → stream_file P buffer key [] s ≡ ((err e, []), s)
  unfolding stream_file
  stream_file-missing key s e h = ground (arith, file_from_memory-state key s)

  -- Whatever the disk holds and its calls do, what StreamFile has written when it returns is checked
  -- chunks of the file, in order from the first one on.
  pub stream_file-IsVerified :
      (key : Bytes) (file : File) (s : Store)
      → lookup key s.files ≡ some file
      → IsVerified file.references (stream_file P buffer key [] s).0.1
  stream_file-IsVerified key file s h = elim (Result-cases (file_from_memory key s)) [
    | inr (e, missing) ↦ rw (stream_file-missing key s e missing) (IsVerified-nil file.references)
    | inl (found, known) ↦
        let same : found ≡ file = ground (arith, h, file_from_memory-known key found s known) in
        let (out, wrote, good, ends) = stream_blocks-Outcome file.references [] 0 [] s in
        rw (stream_file-found key file s (known ∙ ap ok same), wrote) good
  ]

  -- Whatever the disk holds and its calls do, when StreamFile reports no error, what it has written
  -- is of the size and the SHA-256 hash that the file's metadata gives.
  pub stream_file_sound :
      (key out : Bytes) (s t : Store)
      → stream_file P buffer key [] s ≡ ((ok tt, out), t)
      → (file : File) × (lookup key s.files ≡ some file)
        × (length out ≡ file.meta_data.total_size)
        × (P.sha256 out ≡ file.meta_data.file_hash)
  stream_file_sound key out s t h = elim (Result-cases (file_from_memory key s)) [
    | inr (e, missing) ↦ absurd (ground (arith, stream_file-missing key s e missing))
    | inl (file, known) ↦
        let (o, wrote, good, ends) = stream_blocks-Outcome file.references [] 0 [] s in
        let (size, hash) =
          check_stream-ok file o _ ends (ground (arith, h, stream_file-found key file s known)) in
        let same : o ≡ out = ground (arith, h, stream_file-found key file s known, wrote) in
        (file, file_from_memory-known key file s known, rw (sym same) size, rw (sym same) hash)
  ]
