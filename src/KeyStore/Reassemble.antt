-- ===== src/KeyStore/Reassemble.antt =====
-- ReassembleFileToPath of files.go and HashFile of config.go.
use dps_files.KeyStore.Stream.Integrity.{file_from_memory-known}
use dps_files.KeyStore.Exec.Memory.{Ensures, bind-Ensures}
use dps_files.Prelude.{
  ◌∙◌, ==→eq, inr, arith, list_eq, nat_eq, inl, ◌==◌, Option-cases, ◌^◌, ltb, some, ◌&&◌, ◌++◌, eqb,
  length, ◌∷◌, ◌≡◌, Option, [], ℕ, Bytes, List,
}
use dps_files.Prelude.Map.{lookup}
use dps_files.KeyStore.Types.{Store, Platform, File, FileReference, FilePath}
use dps_files.KeyStore.Exec.{
  Exec, ok, pure, require, ◌>>=◌, ◌>>◌, system_call, write_file, read_file, size_mismatch,
  hash_mismatch,
}
use dps_files.KeyStore.Index.{file_from_memory}
use dps_files.KeyStore.Stream.{load_block}

module _ (P : Platform) where
  -- HashFile: opening, Stat and reading of a file that does not change meanwhile
  unfoldable pub hash_file : FilePath → Exec (Bytes × ℕ)
  hash_file path = do
    bytes ← read_file path
    system_call
    system_call
    pure (P.sha256 bytes, length bytes)

  -- The loop over the references: `written` is what the output file holds.
  unfoldable pub write_blocks : FilePath → List (Option FileReference) → Bytes → Exec Bytes
  write_blocks path [] written = pure written
  write_blocks path (ref ∷ refs) written = do
    block ← load_block P ref
    write_file path (written ++ block)
    write_blocks path refs (written ++ block)

  -- `length != int64(file.MetaData.TotalSize)`, and the comparison of the hashes
  unfoldable pub check_output : File → Bytes × ℕ → Exec (Unit {0})
  check_output file (hash, size) = do
    require (eqb size file.meta_data.total_size && ltb file.meta_data.total_size (2 ^ 63))
        size_mismatch
    require (hash == file.meta_data.file_hash) hash_mismatch

  -- what follows the loop, from the test of `bytesWritten` on
  unfoldable pub verify_output : FilePath → File → Exec (Unit {0})
  verify_output path file = do hashed ← hash_file path; check_output file hashed

  unfoldable pub finish_output : FilePath → File → Bytes → Exec (Unit {0})
  finish_output path file written = do
    require (eqb (length written) file.meta_data.total_size) size_mismatch
    system_call
    verify_output path file

  unfoldable pub write_output : FilePath → File → Exec (Unit {0})
  write_output path file = do
    write_file path []
    written ← write_blocks path file.references []
    finish_output path file written

  -- ReassembleFileToPath
  unfoldable pub reassemble_file_to_path : Bytes → FilePath → Exec (Unit {0})
  reassemble_file_to_path key path = do file ← file_from_memory key; write_output path file

  pub hash_file_sound :
      (path : FilePath) (hash : Bytes) (size : ℕ) (s : Store)
      → (hash_file path s).0 ≡ ok (hash, size)
      → (bytes : Bytes) × (lookup path (hash_file path s).1.disk ≡ some bytes)
        × (P.sha256 bytes ≡ hash)
        × (length bytes ≡ size)
  unfolding hash_file read_file system_call
  hash_file_sound path hash size s h = elim (Option-cases (lookup path s.disk)) [
    | inl e ↦ absurd (ground (arith, e, h))
    | inr (bytes, e) ↦ (bytes, ground (arith, e, h), ground (arith, e, h), ground (arith, e, h))
  ]

  check_output_sound :
      (file : File) (hash : Bytes) (size : ℕ) (s : Store)
      → (check_output file (hash, size) s).0 ≡ ok tt
      → (size ≡ file.meta_data.total_size)
        × (hash ≡ file.meta_data.file_hash)
        × ((check_output file (hash, size) s).1 ≡ s)
  unfolding check_output
  check_output_sound file hash size s h = ground (arith, ==→eq hash file.meta_data.file_hash)

-- The output path holds bytes of the size and the hash that the metadata of the file gives.
abbrev pub IsWritten : Platform → FilePath → File → Store → Type 0
IsWritten P path file t =
    (bytes : Bytes) × (lookup path t.disk ≡ some bytes)
    × (length bytes ≡ file.meta_data.total_size)
    × (P.sha256 bytes ≡ file.meta_data.file_hash)

module _ (P : Platform) (path : FilePath) (file : File) where
  check_output-Ensures :
      (hash : Bytes) (size : ℕ) (s : Store)
      → (hash_file P path s).0 ≡ ok (hash, size)
      → let t = (hash_file P path s).1 in
        Ensures (λ (_ : Unit {0}) u. IsWritten P path file u) (check_output P file (hash, size) t)
  check_output-Ensures hash size s h b c =
      let t = (hash_file P path s).1 in
      let (bytes, there, sha, len) = hash_file_sound P path hash size s h in
      let (same_size, same_hash, same) = check_output_sound P file hash size t c in
      rw same (bytes, there, len ∙ same_size, sha ∙ same_hash)

  finish_output-Ensures :
      (written : Bytes) (s : Store)
      → Ensures (λ (_ : Unit {0}) u. IsWritten P path file u) (finish_output P path file written s)
  unfolding finish_output verify_output
  finish_output-Ensures written s =
      let Q : Unit {0} → Store → Type 0 = λ _ u. IsWritten P path file u in
      bind-Ensures Q (require (eqb (length written) file.meta_data.total_size) size_mismatch)
        (λ _. system_call >>= λ _. verify_output P path file) s
        (λ _ _.
          bind-Ensures Q system_call (λ _. verify_output P path file) _
            (λ _ _.
              bind-Ensures Q (hash_file P path) (check_output P file) _
                (λ hashed h. check_output-Ensures hashed.0 hashed.1 _ h)))

  write_output-Ensures :
      (s : Store)
      → Ensures (λ (_ : Unit {0}) u. IsWritten P path file u) (write_output P path file s)
  unfolding write_output
  write_output-Ensures s =
      let Q : Unit {0} → Store → Type 0 = λ _ u. IsWritten P path file u in
      bind-Ensures Q (write_file path [])
        (λ _. write_blocks P path file.references [] >>= finish_output P path file) s
        (λ _ _.
          bind-Ensures Q (write_blocks P path file.references []) (finish_output P path file) _
            (λ written _. finish_output-Ensures written _))

-- When ReassembleFileToPath reports no error, the file is known and the output path holds bytes of
-- the size and the hash that its metadata gives, whatever the disk held and its calls did.
pub reassemble_file_to_path_sound :
    (P : Platform) (key : Bytes) (path : FilePath) (s : Store)
    → (reassemble_file_to_path P key path s).0 ≡ ok tt
    → (file : File) × (lookup key s.files ≡ some file)
      × IsWritten P path file (reassemble_file_to_path P key path s).1
unfolding reassemble_file_to_path
reassemble_file_to_path_sound P key path s =
    bind-Ensures (λ _ t. (file : File) × (lookup key s.files ≡ some file) × IsWritten P path file t)
      (file_from_memory key) (write_output P path) s
      (λ file k b c.
        (file, file_from_memory-known P key file s k, write_output-Ensures P path file _ b c))
      tt
