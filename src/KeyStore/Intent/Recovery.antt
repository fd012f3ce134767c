-- ===== src/KeyStore/Intent/Recovery.antt =====
-- What recoverIntentFile of intent.go leaves.
use dps_files.KeyStore.Exec.{system_call, stat, ok, remove_if_present, read_file}
use dps_files.KeyStore.Intent.{
  clean_intent, recover_record, erase, remove_chunks, parse_intent_hash, recover_intent_file,
}
use dps_files.KeyStore.Exec.Faultless.{remove_if_present_lem}
use dps_files.Prelude.{
  list_eq, nat_eq, subst, ℕ, zero, suc, ◌+◌, ◌≤◌, ◌<◌, ◌≡◌, ◌≢◌, ◌∙◌, inl, inr, refl, none, some,
  Bytes, arith, [], dec_lt,
}
use dps_files.Prelude.Map.{lookup}
use dps_files.KeyStore.Types.{
  Store, Platform, FilePath, IntentRecord, get_local_block_location, metadata_path,
}
use dps_files.KeyStore.Exec.Memory.{
  Result-cases, memory, remove_if_present-memory, remove_if_present-absent,
  remove_if_present-lookup_ne, remove_if_present-stays_absent,
}
use dps_files.KeyStore.Chunk.{compute_chunk_key}

module _ (path : ℕ → FilePath) where
  remove_chunks-memory :
      (blocks i : ℕ) (s : Store) → memory (remove_chunks path blocks i s).1 ≡ memory s
  unfolding remove_chunks
  remove_chunks-memory zero i s = refl
  remove_chunks-memory (suc blocks) i s = ground (
    arith,
    remove_if_present-memory (path i) s,
    remove_chunks-memory blocks (suc i) (remove_if_present (path i) s).1,
  )

  remove_chunks-stays_absent :
      (blocks i : ℕ) (other : FilePath) (s : Store)
      → lookup other s.disk ≡ none
      → lookup other (remove_chunks path blocks i s).1.disk ≡ none
  unfolding remove_chunks
  remove_chunks-stays_absent zero i other s h = h
  remove_chunks-stays_absent (suc blocks) i other s h = ground (
    arith,
    remove_if_present-stays_absent other (path i) s h,
    remove_chunks-stays_absent blocks (suc i) other (remove_if_present (path i) s).1,
  )

  remove_chunks-lookup_ne :
      (blocks i : ℕ) (other : FilePath) (s : Store)
      → ((j : ℕ) → path j ≢ other)
      → lookup other (remove_chunks path blocks i s).1.disk ≡ lookup other s.disk
  unfolding remove_chunks
  remove_chunks-lookup_ne zero i other s n = refl
  remove_chunks-lookup_ne (suc blocks) i other s n = ground (
    arith,
    remove_if_present-lookup_ne other (path i) s (n i),
    remove_chunks-lookup_ne blocks (suc i) other (remove_if_present (path i) s).1 n,
  )

  remove_chunks-absent :
      (blocks i : ℕ) (s : Store)
      → (remove_chunks path blocks i s).0 ≡ ok tt
      → (j : ℕ) → i ≤ j
      → j < i + blocks
      → lookup (path j) (remove_chunks path blocks i s).1.disk ≡ none
  unfolding remove_chunks
  remove_chunks-absent zero i s h j a b = absurd (omega arith)
  remove_chunks-absent (suc blocks) i s h j a b =
      let t = (remove_if_present (path i) s).1 in
      elim (Result-cases (remove_if_present (path i) s)) [
        | inr (e, f) ↦ absurd (ground (arith, f, h))
        | inl (u, f) ↦ rw f (elim (dec_lt i j) [
          | yes l ↦
              remove_chunks-absent blocks (suc i) t (ground (arith, f, h)) j (omega arith)
                (omega arith)
          | no l ↦
              let e : i ≡ j = omega arith in
              subst (λ (k : ℕ). lookup (path k) (remove_chunks path blocks (suc i) t).1.disk ≡ none)
                e
                (remove_chunks-stays_absent blocks (suc i) (path i) t
                  (remove_if_present-absent (path i) s f))
        ])
      ]

  remove_chunks-faultless :
      (blocks i : ℕ) (s : Store)
      → s.faults ≡ []
      → ((remove_chunks path blocks i s).0 ≡ ok tt)
        × ((remove_chunks path blocks i s).1.faults ≡ [])
  unfolding remove_chunks
  remove_chunks-faultless zero i s f = (refl, f)
  remove_chunks-faultless (suc blocks) i s f =
      let e = remove_if_present_lem (path i) s f in
      rw e (remove_chunks-faultless blocks (suc i) (record s { disk = erase (path i) s.disk }) f)

module _ (P : Platform) (path : FilePath) (bytes hash : Bytes) (rec : IntentRecord)
    (s : Store) where
  -- The file of an intent, readable, whose hash is well formed.
  pub record IsIntent : Type 0 where
    pub readable : lookup path s.disk ≡ some bytes
    pub decoded : P.decode_intent bytes ≡ some rec
    pub parsed : parse_intent_hash rec.file_hash ≡ some hash

  abbrev pub block_path : ℕ → FilePath
  block_path i = get_local_block_location s.config (compute_chunk_key P hash i)

  -- What recoverIntentFile leaves of a store whose metadata never reached the disk.
  pub record IsUndone (t : Store) : Type 0 where
    pub chunks : (i : ℕ) → i < rec.total_blocks → lookup (block_path i) t.disk ≡ none
    pub intent : lookup path t.disk ≡ none
    pub others :
        (other : FilePath)
        → path ≢ other
        → ((i : ℕ) → block_path i ≢ other)
        → lookup other t.disk ≡ lookup other s.disk
    pub indexes : memory t ≡ memory s

  recover_intent_file-removal :
      IsIntent
      → s.faults ≡ []
      → lookup (metadata_path s.config hash) s.disk ≡ none
      → recover_intent_file P path s
        ≡ remove_if_present path (remove_chunks block_path rec.total_blocks 0 s).1
  unfolding recover_intent_file recover_record clean_intent read_file stat system_call
  recover_intent_file-removal h f m = ground (
    arith,
    h.readable,
    h.decoded,
    h.parsed,
    m,
    remove_chunks-faultless block_path rec.total_blocks 0 s f,
  )

  -- Recovery of a readable intent whose file has no metadata on disk, when no call of the operating
  -- system fails: it succeeds, each chunk that the store could have written is gone, the intent too,
  -- and every other file of the disk and the indexes in memory are as they were.
  pub recover_intent_file-uncommitted :
      IsIntent
      → s.faults ≡ []
      → lookup (metadata_path s.config hash) s.disk ≡ none
      → let r = recover_intent_file P path s in (r.0 ≡ ok tt) × IsUndone r.1
  recover_intent_file-uncommitted h f m =
      let done = remove_chunks-faultless block_path rec.total_blocks 0 s f in
      let t = (remove_chunks block_path rec.total_blocks 0 s).1 in
      let last = remove_if_present_lem path t done.1 in
      rw (recover_intent_file-removal h f m) (
        rw last refl,
        record {
          chunks = λ i b. remove_if_present-stays_absent (block_path i) path t (
              remove_chunks-absent block_path rec.total_blocks 0 s done.0 i (omega arith)
                (omega arith));
          intent = remove_if_present-absent path t (rw last refl);
          others = λ other n c.
              remove_if_present-lookup_ne other path t n
              ∙ remove_chunks-lookup_ne block_path rec.total_blocks 0 other s c;
          indexes =
              remove_if_present-memory path t
              ∙ remove_chunks-memory block_path rec.total_blocks 0 s;
        },
      )

  -- Recovery of a readable intent whose file's metadata is on disk, when no call of the operating
  -- system fails: it succeeds and removes the intent, and no other file changes.
  pub recover_intent_file-committed :
      (meta : Bytes)
      → IsIntent
      → s.faults ≡ []
      → lookup (metadata_path s.config hash) s.disk ≡ some meta
      → recover_intent_file P path s ≡ (ok tt, record s { disk = erase path s.disk })
  unfolding recover_intent_file recover_record clean_intent read_file stat system_call
  recover_intent_file-committed meta h f m =
      ground (arith, h.readable, h.decoded, h.parsed, m, remove_if_present_lem path s f)
