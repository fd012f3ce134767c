-- ===== src/KeyStore/Remote/Passing.antt =====
-- What LoadAndStoreFileRemote of files.go passes to its handler.
use dps_files.Prelude.{
  take-append_at, ◌∙◌, sym, ap, subst, inr, list_eq, nat_eq, mul-le-mul_right, some, [], ◌∷◌, zero,
  suc, ℕ, Bytes, List, Option, ◌≡◌, ◌<◌, ◌≤◌, ◌+◌, ◌-◌, ◌*◌, ◌++◌, ◌^◌, refl, arith, length,
}
use dps_files.KeyStore.Remote.{
  drop, pass_block, replicate, take, Shared, read_into, prepare_remote, handed,
  load_and_store_file_remote, RemoteHandler, hand_blocks, committed_file, hand_and_commit,
}
use dps_files.KeyStore.Exec.{Result, ok, write_file, system_call}
use dps_files.KeyStore.Types.{FilePath, File, FileReference, MetaData, Platform, Store}
use dps_files.KeyStore.RoundTrip.Blocks.{joined}
use dps_files.KeyStore.RoundTrip.Laws.{CanStore, existing_none, local_meta_data-Fits}
use dps_files.KeyStore.Index.{file_to_memory}
use dps_files.KeyStore.Exec.Faultless.{read_file_lem, system_call_lem}
use dps_files.KeyStore.BlockSize.{prepare_meta_data}
use dps_files.KeyStore.BlockSize.Bounds.{count_blocks_exact, calculate_block_size_bounds}
use dps_files.KeyStore.Files.{
  base_name, commit_file, block_data, loaded_meta_data, local_meta_data, new_block,
}
use dps_files.KeyStore.RoundTrip.Commit.{write_intent_lem, Fits, joined_all}
use dps_files.KeyStore.RoundTrip.Loading.{offset, length-block, wanted-block, next_offset}
use dps_files.Prelude.Map.{Map, lookup}
use mathlib.Core.List.{append_assoc, append-nil}

module _ (P : Platform) (md : MetaData) (bytes : Bytes) where
  abbrev pub block_reference : ℕ → FileReference
  block_reference i = new_block P md i (block_data md bytes i)

  -- The references of blocks in a row, from block i on.
  abbrev pub references_from : (blocks i : ℕ) → List (Option FileReference)
  references_from zero i = []
  references_from (suc blocks) i = some (block_reference i) ∷ references_from blocks (suc i)

  -- What the handler and the buffer are after blocks in a row, from block i on: each call sees its block
  -- at the start of the buffer.
  abbrev pub passed_from : {H : Type 0} → RemoteHandler H → (blocks i : ℕ) → Shared H → Shared H
  passed_from R zero i m = m
  passed_from R (suc blocks) i m =
      let block = block_data md bytes i in
      let buffer = block ++ drop (length block) m.buffer in
      passed_from R blocks (suc i) (record {
        handler = R.pass_file_reference (block_reference i) buffer (length block) m.handler;
        buffer = buffer;
      })

  passed_from-last :
      {H : Type 0} (R : RemoteHandler H) (blocks i j : ℕ) (m : Shared H)
      → i + blocks ≡ j
      → let last = block_data md bytes j in
        take (length last) (passed_from R (suc blocks) i m).buffer ≡ last
  passed_from-last R zero i j m e =
      let block = block_data md bytes i in
      let same : i ≡ j = omega arith in
      subst
        (λ k.
          take (length (block_data md bytes k)) (passed_from R 1 i m).buffer
          ≡ block_data md bytes k)
        same (take-append_at (length block) block (drop (length block) m.buffer) refl)
  passed_from-last R (suc blocks) i j m e = passed_from-last R blocks (suc i) j _ (omega arith)

  module _ {H : Type 0} (R : RemoteHandler H) (f : Fits P md bytes)
      (last : (md.total_blocks - 1) * md.block_size < length bytes) (pos : 0 < md.block_size) where
    hand_blocks_lem :
        (blocks i : ℕ) (refs : List (Option FileReference)) (m : Shared H) (s : Store)
        → s.faults ≡ []
        → i + blocks ≡ md.total_blocks
        → hand_blocks P R md bytes blocks i (offset P md bytes f i) refs m s
          ≡ ((ok (refs ++ references_from blocks i), passed_from R blocks i m), s)
    unfolding hand_blocks read_into pass_block
    hand_blocks_lem zero i refs m s n e = rw (append-nil refs) refl
    hand_blocks_lem (suc blocks) i refs m s n e =
        let under = mul-le-mul_right i (md.total_blocks - 1) md.block_size (omega arith) in
        let inside : i * md.block_size < length bytes = omega arith in
        let block = block_data md bytes i in
        let ref = block_reference i in
        let some_bytes : 0 < length block =
          omega (arith, length-block P md bytes f i inside (omega arith)) in
        let after = read_into block m.buffer in
        let rest =
          hand_blocks_lem blocks (suc i) (refs ++ some ref ∷ [])
            (record {
              handler = R.pass_file_reference ref after (length block) m.handler;
              buffer = after;
            })
            s n (omega arith) in
        ground (
          arith,
          system_call_lem s n,
          wanted-block P md bytes f i inside (omega arith),
          next_offset P md bytes f i inside (omega arith),
          some_bytes,
          take-append_at (length block) block (drop (length block) m.buffer) refl,
          rest,
          append_assoc refs (some ref ∷ []) (references_from blocks (suc i)),
        )

commit_file-ok :
    (P : Platform) (file : File) (s : Store) → s.faults ≡ [] → (commit_file P file s).0 ≡ ok file
unfolding commit_file file_to_memory write_file system_call
commit_file-ok P file s f = ground (arith, f)

-- The handler and the buffer before the first block.
abbrev pub started_with : {H : Type 0} → RemoteHandler H → MetaData → H → Shared H
started_with R md h = record { handler = R.start_receiver md h; buffer = replicate md.block_size 0 }

-- What LoadAndStoreFileRemote has done with a file: the blocks join to its bytes, the handler got each
-- of them in order, and afterwards the buffer starts with the last one.
abbrev pub IsPassed :
    (P : Platform) {H : Type 0}
    → RemoteHandler H
    → MetaData
    → Bytes
    → H
    → Result File
    → Shared H
    → Type 0
IsPassed P R md bytes h r m =
    let last = block_data md bytes (md.total_blocks - 1) in
    (r ≡ ok (record { meta_data = md; references = references_from P md bytes md.total_blocks 0 }))
    × (m ≡ passed_from P md bytes R md.total_blocks 0 (started_with R md h))
    × (joined md bytes md.total_blocks 0 ≡ bytes)
    × (take (length last) m.buffer ≡ last)

hand_and_commit-passes :
    (P : Platform) {H : Type 0} (R : RemoteHandler H) (name bytes : Bytes) (permissions : ℕ) (h : H)
    (s : Store)
    → 0 < length bytes
    → length bytes ≤ 2 ^ 53
    → s.faults ≡ []
    → let md = loaded_meta_data P name permissions bytes s in
      let r = (hand_and_commit P R md bytes h s).0 in IsPassed P R md bytes h r.0 r.1
unfolding hand_and_commit committed_file loaded_meta_data local_meta_data prepare_meta_data
hand_and_commit-passes P R name bytes permissions h s pos most n =
    let md = loaded_meta_data P name permissions bytes s in
    let (cover, under, some_blocks) = count_blocks_exact (length bytes) pos most in
    let (block, _, _, _) = calculate_block_size_bounds (length bytes) pos in
    let g = local_meta_data-Fits P name bytes s most in
    let f : Fits P md bytes = record {
      whole = g.whole;
      covered = g.covered;
      narrow = g.narrow;
      few = g.few;
    } in
    let m = started_with R md h in
    let file : File = record {
      meta_data = md;
      references = references_from P md bytes md.total_blocks 0;
    } in
    let loop =
      hand_blocks_lem P md bytes R f under block md.total_blocks 0 [] m s n (omega arith) in
    let done : (hand_and_commit P R md bytes h s).0
        ≡ (ok file, passed_from P md bytes R md.total_blocks 0 m) =
      ground (arith, loop, commit_file-ok P file s n) in
    let count : suc (md.total_blocks - 1) ≡ md.total_blocks = omega (arith, some_blocks) in
    let last = block_data md bytes (md.total_blocks - 1) in
    let ends =
      subst (λ k. take (length last) (passed_from P md bytes R k 0 m).buffer ≡ last) count
        (passed_from-last P md bytes R (md.total_blocks - 1) 0 (md.total_blocks - 1) m
          (omega arith)) in
    (
      ap (λ r. r.0) done,
      ap (λ r. r.1) done,
      joined_all P md bytes f,
      ap (λ r. take (length last) r.1.buffer) done ∙ ends,
    )

prepare_remote_lem :
    (P : Platform) (random bytes : Bytes) (permissions : ℕ) (path : FilePath) (s : Store)
    → CanStore P (base_name P path) bytes s
    → lookup path s.disk ≡ some bytes
    → (disk : Map FilePath Bytes) × (prepare_remote P random permissions path s ≡ (
      ok (inr (loaded_meta_data P (base_name P path) permissions bytes s, bytes)),
      record s { disk = disk },
    ))
unfolding prepare_remote loaded_meta_data local_meta_data
prepare_remote_lem P random bytes permissions path s can there =
    let md = loaded_meta_data P (base_name P path) permissions bytes s in
    let (disk, intent) = write_intent_lem P random md s can.faultless in
    (
      disk,
      ground (
        arith,
        read_file_lem path bytes s can.faultless there,
        system_call_lem s can.faultless,
        existing_none P (base_name P path) bytes s (P.sha256 bytes) can.unknown,
        can.uncached,
        intent,
      ),
    )

-- When no call of the operating system fails, the file is not empty and can be stored (it is new,
-- neither known nor cached, at most 2 ^ 53 bytes long, its chunks have different keys, and it does not
-- expire at once), LoadAndStoreFileRemote returns the file with the reference of every block. It has
-- started the handler with the metadata and called it for every block in order, with the block's
-- reference and a slice that, at the time of the call, holds the bytes of the block; the blocks join to
-- the bytes of the file. All slices lie at the start of one buffer, which the next round writes over:
-- when the method has returned, the buffer starts with the last block.
pub load_and_store_file_remote-passes :
    (P : Platform) {H : Type 0} (R : RemoteHandler H) (random bytes : Bytes) (permissions : ℕ)
    (path : FilePath) (h : H) (s : Store)
    → CanStore P (base_name P path) bytes s
    → 0 < length bytes
    → lookup path s.disk ≡ some bytes
    → let md = loaded_meta_data P (base_name P path) permissions bytes s in
      let r = (load_and_store_file_remote P R random permissions path h s).0 in
      IsPassed P R md bytes h r.0 r.1
unfolding load_and_store_file_remote handed loaded_meta_data local_meta_data
load_and_store_file_remote-passes P R random bytes permissions path h s can pos there =
    let md = loaded_meta_data P (base_name P path) permissions bytes s in
    let (disk, prepared) = prepare_remote_lem P random bytes permissions path s can there in
    let done =
      hand_and_commit-passes P R (base_name P path) bytes permissions h (record s { disk = disk })
        pos can.fits can.faultless in
    let same : (load_and_store_file_remote P R random permissions path h s).0
        ≡ (hand_and_commit P R md bytes h (record s { disk = disk })).0 =
      ap (λ x. (handed P R h x.0 x.1).0) prepared in
    subst (λ r. IsPassed P R md bytes h r.0 r.1) (sym same) done
