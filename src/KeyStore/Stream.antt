-- ===== src/KeyStore/Stream.antt =====
-- Reading files back: ReassembleFileToBytes and ReassembleFileToPath of files.go, StreamFile and
-- StreamChunkRange of key_store.go.
pub mod Integrity
use dps_files.Prelude.{
  ℕ, suc, ◌+◌, ◌-◌, ◌*◌, Bool, true, false, ◌||◌, Option, none, some, List, [], ◌∷◌, ◌++◌, Bytes,
  length, take, drop, replicate, eqb, ltb, leb, ◌==◌, list_eq, nat_eq, if◌then◌else◌,
}
use dps_files.Prelude.Map.{lookup}
use dps_files.KeyStore.Types.{Store, Platform, File, FileReference, uint32}
use dps_files.KeyStore.Exec.{
  Exec, Result, ok, err, pure, raise, require, ◌>>=◌, ◌>>◌, not_found, size_mismatch, hash_mismatch,
  missing_reference, invalid_range, io_failed,
}
use dps_files.KeyStore.Exec.{panicked}
use dps_files.KeyStore.Chunk.{load_file_reference_data}
use dps_files.KeyStore.Index.{file_from_memory}

-- `w.Write(p)`: the writer after it, the count that it returns, and whether it returns an error.
pub record Written (W : Type 0) : Type 0 where
  pub writer : W
  pub count : ℕ
  pub failed : Bool

-- `io.Writer` over a state of its own
abbrev pub Writer : Type 0 → Type 0
Writer W = W → Bytes → Written W

-- a method that writes to a writer as it goes
abbrev pub Streams : Type 0 → Type 0 → Type 0
Streams W A = W → Store → (Result A × W) × Store

-- `copy(dst, src)`
abbrev pub copy : Bytes → Bytes → Bytes
copy dst src = take (length dst) src ++ drop (length src) dst

-- `copy(buf[start:], src)`, where the slice is in range
unfoldable pub copy_at : ℕ → Bytes → Bytes → Bytes
copy_at start src buf = take start buf ++ copy (drop start buf) src

-- the end of the range, as StreamChunkRange adjusts it
unfoldable pub range_end : ℕ → ℕ → ℕ
range_end total last = if eqb last 0 || ltb total last then total else last

module _ (P : Platform) where
  -- What each reading loop does with a reference before it uses the data.
  unfoldable pub load_block : Option FileReference → Exec Bytes
  load_block none = raise missing_reference
  load_block (some ref) = do
    bytes ← load_file_reference_data P ref.key
    require (eqb (uint32 (length bytes)) ref.size) size_mismatch
    require (P.sha256 bytes == ref.data_hash) hash_mismatch
    pure bytes

  -- The loop of ReassembleFileToBytes: the buffer and `bytesWritten`.
  unfoldable pub reassemble_blocks :
      ℕ → ℕ → List (Option FileReference) → Bytes → ℕ → Exec (Bytes × ℕ)
  reassemble_blocks block_size i [] buf written = pure (buf, written)
  reassemble_blocks block_size i (ref ∷ refs) buf written = do
    bytes ← load_block ref
    require (leb (i * block_size) (length buf)) panicked
    reassemble_blocks block_size (suc i) refs (copy_at (i * block_size) bytes buf)
        (written + length bytes)

  -- ReassembleFileToBytes
  unfoldable pub reassemble_file_to_bytes : Bytes → Exec Bytes
  unfolding reassemble_blocks
  reassemble_file_to_bytes key = do
    file ← file_from_memory key
    r ←
        reassemble_blocks file.meta_data.block_size 0 file.references
          (replicate file.meta_data.total_size 0) 0
    require (eqb r.1 file.meta_data.total_size) size_mismatch
    require (P.sha256 r.0 == file.meta_data.file_hash) hash_mismatch
    pure r.0

  module _ {W : Type 0} (write : Writer W) where
    abbrev after_write :
        (ℕ → Streams W (Bytes × ℕ)) → Written W → Store → (Result (Bytes × ℕ) × W) × Store
    after_write rest r s = elim r.failed [
      | true ↦ ((err io_failed, r.writer), s)
      | false ↦ rest r.count r.writer s
    ]

    -- The loops of StreamFile, ReassembleFileToPath and StreamChunkRange: what was given to the
    -- hasher, and `bytesWritten`.
    unfoldable pub stream_blocks : List (Option FileReference) → Bytes → ℕ → Streams W (Bytes × ℕ)
    stream_blocks [] hashed written w s = ((ok (hashed, written), w), s)
    stream_blocks (ref ∷ refs) hashed written w s =
        let r = load_block ref s in
        elim r.0 [
          | err e ↦ ((err e, w), r.1)
          | ok bytes ↦
              after_write (λ n. stream_blocks refs (hashed ++ bytes) (written + n)) (write w bytes)
                r.1
        ]

    abbrev pub check_stream : File → Result (Bytes × ℕ) → Result (Unit {0})
    check_stream file (err e) = err e
    check_stream file (ok (hashed, written)) =
        if eqb written file.meta_data.total_size
        then (if P.sha256 hashed == file.meta_data.file_hash then ok tt else err hash_mismatch)
        else err size_mismatch

    -- StreamFile
    unfoldable pub stream_file : Bytes → Streams W (Unit {0})
    unfolding stream_blocks
    stream_file key w s =
        let r = file_from_memory key s in
        elim r.0 [
          | err e ↦ ((err e, w), r.1)
          | ok file ↦
              (let t = stream_blocks file.references [] 0 w r.1 in
                ((check_stream file t.0.0, t.0.1), t.1))
        ]

    -- StreamFileByName
    unfoldable pub stream_file_by_name : Bytes → Streams W (Unit {0})
    unfolding stream_file
    stream_file_by_name name w s = elim (lookup name s.files_by_name) [
      | none ↦ ((err not_found, w), s)
      | some hash ↦ stream_file hash w s
    ]

    -- StreamChunkRange, without the count that it returns beside an error
    unfoldable pub stream_chunk_range : Bytes → ℕ → ℕ → Streams W ℕ
    unfolding stream_blocks range_end
    stream_chunk_range key first last w s =
        let r = file_from_memory key s in
        elim r.0 [
          | err e ↦ ((err e, w), r.1)
          | ok file ↦
              (let stop = range_end (uint32 (length file.references)) last in
                elim (leb stop first) [
                  | true ↦ ((err invalid_range, w), r.1)
                  | false ↦
                      (let t =
                          stream_blocks (take (stop - first) (drop first file.references)) [] 0 w
                            r.1 in
                        ((elim t.0.0 [ err e ↦ err e | ok (_, n) ↦ ok n ], t.0.1), t.1))
                ])
        ]

-- A writer that keeps what it is given, such as a file or `bytes.Buffer`.
unfoldable pub buffer : Writer Bytes
buffer w bytes = record { writer = w ++ bytes; count = length bytes; failed = false }
