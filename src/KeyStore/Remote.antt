-- ===== src/KeyStore/Remote.antt =====
-- LoadAndStoreFileRemote of files.go, over a RemoteHandler (config.go). What is passed are pointers into
-- memory that the method shares with its handler: one buffer, which each round of the loop reads into
-- again, and the metadata and the references, which nobody writes after they are passed (a handler does
-- not write through what it is passed).
pub mod Passing
use dps_files.Prelude.{
  none, some, [], ◌∷◌, zero, suc, ℕ, Bytes, List, Option, ◌⊎◌, inl, inr, ◌+◌, ◌-◌, ◌++◌, eqb,
  length, take, drop, if◌then◌else◌, replicate,
}
use dps_files.KeyStore.Types.{File, FilePath, FileReference, MetaData, Platform, Store, uint32}
use dps_files.KeyStore.Exec.{
  Exec, Result, ok, err, pure, gets, read_file, system_call, unexpected_eof, ◌>>=◌, ◌>>◌,
}
use dps_files.KeyStore.Cache.{ensure_hash_not_cached}
use dps_files.KeyStore.Index.{existing_file_by_hash}
use dps_files.KeyStore.Intent.{clear_intent, write_intent}
use dps_files.KeyStore.Files.{base_name, commit_file, loaded_meta_data, new_block}

-- RemoteHandler, by what the calls do to its state `H`. PassFileReference gets a slice of the buffer: the
-- bytes of the buffer at the time of the call, and the length `n` of the slice. A handler that looks at a
-- slice later finds what the buffer holds then. LoadAndStoreFileRemote does not call Receive.
pub record RemoteHandler (H : Type 0) : Type 0 where
  pub start_receiver : MetaData → H → H
  pub pass_file_reference : FileReference → (buffer : Bytes) → (n : ℕ) → H → H

-- The handler and the buffer that its slices lie in.
pub record Shared (H : Type 0) : Type 0 where
  pub handler : H
  pub buffer : Bytes

-- Reading at the start of the buffer: the bytes behind stay.
unfoldable pub read_into : Bytes → Bytes → Bytes
read_into block buffer = block ++ drop (length block) buffer

module _ (P : Platform) where
  -- what comes before StartReceiver: a file that is known, or one to hand over
  unfoldable pub prepare_remote : Bytes → ℕ → FilePath → Exec (File ⊎ (MetaData × Bytes))
  prepare_remote random permissions path = do
    bytes ← read_file path
    system_call
    system_call
    system_call
    md ← gets (loaded_meta_data P (base_name P path) permissions bytes)
    existing ← existing_file_by_hash P md.file_hash
    elim existing [
      | some file ↦ pure (inl file)
      | none ↦ do
        ensure_hash_not_cached P md.file_hash
        write_intent P random md
        pure (inr (md, bytes))
    ]

module _ (P : Platform) {H : Type 0} (R : RemoteHandler H) where
  -- `handler.PassFileReference(&block, buffer[:n])`
  unfoldable pub pass_block : FileReference → ℕ → Shared H → Shared H
  pass_block ref n m = record m { handler = R.pass_file_reference ref m.buffer n m.handler }

  -- The loop over an open file: `offset` is `totalBytesRead`. A read that fails leaves the buffer as it was.
  unfoldable pub hand_blocks :
      MetaData
      → Bytes
      → (blocks i offset : ℕ) → List (Option FileReference)
      → Shared H
      → Store
      → (Result (List (Option FileReference)) × Shared H) × Store
  unfolding read_into pass_block
  hand_blocks md bytes zero i offset refs m s = ((ok refs, m), s)
  hand_blocks md bytes (suc blocks) i offset refs m s =
      let wanted =
        if eqb i (md.total_blocks - 1) then uint32 (md.total_size - offset) else md.block_size in
      let r = system_call s in
      let block = take wanted (drop offset bytes) in
      let n = length block in
      let read : Shared H = record m { buffer = read_into block m.buffer } in
      let block_bytes = take n read.buffer in
      let ref = new_block P md i block_bytes in
      let rest =
        hand_blocks md bytes blocks (suc i) (offset + n) (refs ++ some ref ∷ [])
          (pass_block ref n read) r.1 in
      elim r.0 [
        | err e ↦ ((err e, m), r.1)
        | ok _ ↦ (if eqb n 0 then ((err unexpected_eof, read), r.1) else rest)
      ]

  unfoldable pub committed_file :
      MetaData
      → (Result (List (Option FileReference)) × Shared H) × Store
      → (Result File × Shared H) × Store
  committed_file md ((err e, m), s) = ((err e, m), s)
  committed_file md ((ok refs, m), s) =
      let r = commit_file P (record { meta_data = md; references = refs }) s in ((r.0, m), r.1)

  -- LoadAndStoreFileRemote between writeIntent and the deferred clearIntent
  unfoldable pub hand_and_commit : MetaData → Bytes → H → Store → (Result File × Shared H) × Store
  unfolding hand_blocks committed_file
  hand_and_commit md bytes h s =
      let m : Shared H = record {
        handler = R.start_receiver md h;
        buffer = replicate md.block_size 0;
      } in
      committed_file md (hand_blocks md bytes md.total_blocks 0 0 [] m s)

  -- a file that is known, or an error, comes before there is a buffer
  unfoldable pub handed :
      H → Result (File ⊎ (MetaData × Bytes)) → Store → (Result File × Shared H) × Store
  unfolding hand_and_commit
  handed h (err e) s = ((err e, record { handler = h; buffer = [] }), s)
  handed h (ok (inl file)) s = ((ok file, record { handler = h; buffer = [] }), s)
  handed h (ok (inr (md, bytes))) s =
      let r = hand_and_commit md bytes h s in (r.0, (clear_intent md.file_hash r.1).1)

  -- LoadAndStoreFileRemote. The file does not change while it is open.
  unfoldable pub load_and_store_file_remote :
      Bytes → ℕ → FilePath → H → Store → (Result File × Shared H) × Store
  unfolding prepare_remote handed
  load_and_store_file_remote random permissions path h s =
      let r = prepare_remote P random permissions path s in handed h r.0 r.1
