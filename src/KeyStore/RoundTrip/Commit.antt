-- ===== src/KeyStore/RoundTrip/Commit.antt =====
-- The parts of StoreFileLocal when no call of the operating system fails.
use dps_files.Prelude.{
  ◌-◌, false, some, take, drop, text, hex_encode, ◌*◌, mod-eq_of_lt, ap, length-append, Option, ◌^◌,
  List, length, ℕ, Bytes, refl, sym, ◌+◌, ◌≡◌, ◌≤◌, ◌<◌, ◌∙◌, zero, suc, arith, ◌++◌, ◌∷◌, [],
  list_eq, nat_eq,
}
use dps_files.KeyStore.RoundTrip.Steps.{
  kept, store_blocks_lem, faults-after_blocks, config-after_blocks, after_blocks, stored_refs,
}
use dps_files.KeyStore.Stream.{Writer, buffer, stream_blocks}
use dps_files.KeyStore.Index.{track}
use dps_files.Prelude.Map.{lookup-insert_self, insert, erase, Map}
use dps_files.KeyStore.Intent.{intent_record, intent_dir, clear_intent, write_intent}
use dps_files.KeyStore.Exec.Faultless.{remove_if_present_lem}
use dps_files.KeyStore.RoundTrip.Stored.{
  after_blocks-HasBlock, committed-Holds, commit_file_lem, KeysDistinct, committed, load_block_lem,
  stored_file, Holds,
}
use dps_files.KeyStore.Types.{
  intent_path, FilePath, FileReference, KeyStoreConfig, Platform, MetaData, Store,
}
use dps_files.KeyStore.Exec.{read_file, rename, system_call, write_file, ok}
use dps_files.KeyStore.Files.{store_and_commit, block_data, new_block, total_size_of}
use dps_files.KeyStore.RoundTrip.Blocks.{joined-eq-drop, length-block_data-le, joined}
use mathlib.Core.List.{append_assoc, append-nil}

module _ (P : Platform) (md : MetaData) (bytes : Bytes) where
  abbrev pub at : KeyStoreConfig → ℕ → ℕ → List (Option FileReference)
  at = stored_refs P md bytes

  -- The loops over the references of a held file give the blocks in order to a writer that takes
  -- everything: `accept` is its state after a text.
  module _ {W : Type 0} (write : Writer W) (accept : Bytes → W)
      (takes : (given p : Bytes)
        → write (accept given) p
          ≡ record { writer = accept (given ++ p); count = length p; failed = false })
      (s : Store) where
    pub stream_blocks-accept :
        (blocks i : ℕ) (hashed : Bytes) (written : ℕ) (given : Bytes)
        → Holds P md bytes (stored_file P md bytes s.config) s
        → i + blocks ≤ md.total_blocks
        → stream_blocks P write (at s.config blocks i) hashed written (accept given) s ≡ (
          (
            ok (hashed ++ joined md bytes blocks i, written + length (joined md bytes blocks i)),
            accept (given ++ joined md bytes blocks i),
          ),
          s,
        )
    unfolding stream_blocks
    stream_blocks-accept zero i hashed written given h b =
        rw (append-nil hashed, append-nil given)
          (ap (λ (n : ℕ). ((ok (hashed, n), accept given), s)) (omega arith))
    stream_blocks-accept (suc blocks) i hashed written given h b =
        let block = block_data md bytes i in
        let rest = joined md bytes blocks (suc i) in
        let ih =
          stream_blocks-accept blocks (suc i) (hashed ++ block) (written + length block)
            (given ++ block) h (omega arith) in
        ground (
          arith,
          load_block_lem P md bytes s i h (omega arith),
          takes given block,
          ih,
          append_assoc hashed block rest,
          append_assoc given block rest,
          length-append block rest,
        )

  pub stream_blocks_lem :
      (s : Store) (blocks i : ℕ) (hashed : Bytes) (written : ℕ) (w : Bytes)
      → Holds P md bytes (stored_file P md bytes s.config) s
      → i + blocks ≤ md.total_blocks
      → stream_blocks P buffer (at s.config blocks i) hashed written w s ≡ (
        (
          ok (hashed ++ joined md bytes blocks i, written + length (joined md bytes blocks i)),
          w ++ joined md bytes blocks i,
        ),
        s,
      )
  unfolding buffer
  stream_blocks_lem s = stream_blocks-accept buffer (λ w. w) (λ given p. refl) s

  pub length-stored_refs : (c : KeyStoreConfig) (blocks i : ℕ) → length (at c blocks i) ≡ blocks
  length-stored_refs c zero i = refl
  length-stored_refs c (suc blocks) i = omega (arith, length-stored_refs c blocks (suc i))

  take-stored_refs :
      (c : KeyStoreConfig) (n blocks i : ℕ) → n ≤ blocks → take n (at c blocks i) ≡ at c n i
  take-stored_refs c zero blocks i h = refl
  take-stored_refs c (suc n) zero i h = absurd (omega arith)
  take-stored_refs c (suc n) (suc blocks) i h =
      ap (λ refs. some (kept P md bytes c i) ∷ refs)
        (take-stored_refs c n blocks (suc i) (omega arith))

  drop-stored_refs :
      (c : KeyStoreConfig) (n all blocks i : ℕ)
      → all ≡ n + blocks
      → drop n (at c all i) ≡ at c blocks (i + n)
  drop-stored_refs c zero all blocks i e =
      ap (λ (k : ℕ). at c k i) {x = all} {y = blocks} (omega arith)
      ∙ ap (at c blocks) {x = i} {y = i + 0} (omega arith)
  drop-stored_refs c (suc n) zero blocks i e = absurd (omega arith)
  drop-stored_refs c (suc n) (suc all) blocks i e =
      drop-stored_refs c n all blocks (suc i) (omega arith)
      ∙ ap (at c blocks) {x = suc i + n} {y = i + suc n} (omega arith)

  -- The references of a range of blocks.
  pub range-stored_refs :
      (c : KeyStoreConfig) (n first all : ℕ)
      → first + n ≤ all
      → take n (drop first (at c all 0)) ≡ at c n first
  range-stored_refs c n first all h =
      ap (take n) (drop-stored_refs c first all (all - first) 0 (omega arith))
      ∙ ap (λ (k : ℕ). take n (at c (all - first) k)) {x = 0 + first} {y = first} (omega arith)
      ∙ take-stored_refs c n (all - first) first (omega arith)

  total_size_of-stored_refs :
      (c : KeyStoreConfig) (blocks i : ℕ)
      → md.total_size ≡ length bytes
      → md.block_size < 2 ^ 32
      → total_size_of (at c blocks i) ≡ length (joined md bytes blocks i)
  unfolding total_size_of new_block
  total_size_of-stored_refs c zero i w b = refl
  total_size_of-stored_refs c (suc blocks) i w b = omega (
    arith,
    total_size_of-stored_refs c blocks (suc i) w b,
    length-append (block_data md bytes i) (joined md bytes blocks (suc i)),
    mod-eq_of_lt {n = length (block_data md bytes i)} {m = 2 ^ 32}
        (omega (arith, length-block_data-le md bytes w i)),
  )

  -- The blocks cover the file: the number of blocks and their size fit the data.
  pub record Fits : Type 0 where
    pub whole : md.total_size ≡ length bytes
    pub covered : length bytes ≤ md.total_blocks * md.block_size
    pub narrow : md.block_size < 2 ^ 32
    pub few : md.total_blocks ≤ 2 ^ 32

  pub joined_all : Fits → joined md bytes md.total_blocks 0 ≡ bytes
  joined_all f =
      joined-eq-drop md bytes f.whole md.total_blocks 0 (omega (arith, f.covered))
      ∙ ap (λ (k : ℕ). drop k bytes) {x = 0 * md.block_size} {y = 0} (omega arith)

  -- The sizes of the references that storing gives add up to the file's.
  pub total_size_of-stored :
      Fits → (c : KeyStoreConfig) → total_size_of (at c md.total_blocks 0) ≡ md.total_size
  total_size_of-stored f c =
      total_size_of-stored_refs c md.total_blocks 0 f.whole f.narrow
      ∙ ap length (joined_all f)
      ∙ sym f.whole

  abbrev pub stored : Store → Store
  stored s = committed P md bytes (after_blocks P md bytes md.total_blocks 0 s)

  pub store_and_commit_lem :
      (s : Store)
      → Fits
      → s.faults ≡ []
      → store_and_commit P md bytes s ≡ (ok (stored_file P md bytes s.config), stored s)
  unfolding store_and_commit
  store_and_commit_lem s f h =
      let after = after_blocks P md bytes md.total_blocks 0 s in
      let same = config-after_blocks P md bytes md.total_blocks 0 s in
      let size = total_size_of-stored f s.config in
      let commit =
        commit_file_lem P md bytes after (faults-after_blocks P md bytes md.total_blocks 0 s ∙ h) in
      let blocks = store_blocks_lem P md bytes md.total_blocks 0 [] s h in
      ground (arith, blocks, same, size, commit)

  pub stored-Holds :
      (s : Store)
      → Fits
      → KeysDistinct P md bytes
      → s.faults ≡ []
      → Holds P md bytes (stored_file P md bytes (stored s).config) (stored s)
  unfolding track
  stored-Holds s f d h =
      committed-Holds P md bytes (after_blocks P md bytes md.total_blocks 0 s) d f.few
        (faults-after_blocks P md bytes md.total_blocks 0 s ∙ h)
        (λ j b.
          after_blocks-HasBlock P md bytes md.total_blocks 0 s d (omega arith) j (omega arith)
            (omega arith))

pub write_intent_lem :
    (P : Platform) (random : Bytes) (md : MetaData) (s : Store)
    → s.faults ≡ []
    → (disk : Map FilePath Bytes) × (write_intent P random md s ≡ (ok tt, record s { disk = disk }))
unfolding write_intent write_file system_call rename read_file
write_intent_lem P random md s f =
    let tmp =
      intent_dir s.config ++ (hex_encode md.file_hash ++ text "-" ++ random ++ text ".tmp") ∷ [] in
    let bytes = P.encode_intent (intent_record md) in
    let before = insert tmp bytes (insert tmp [] s.disk) in
    (
      insert (intent_path s.config md.file_hash) bytes (erase tmp before),
      ground (arith, lookup-insert_self tmp bytes (insert tmp [] s.disk)),
    )

pub clear_intent_lem :
    (hash : Bytes) (s : Store)
    → s.faults ≡ []
    → clear_intent hash s ≡ (ok tt, record s { disk = erase (intent_path s.config hash) s.disk })
unfolding clear_intent
clear_intent_lem hash s f = remove_if_present_lem (intent_path s.config hash) s f
