-- ===== src/KeyStore/Naming/Storing.antt =====
-- Storing of files.go, when no call fails: names and hashes keep leading to their files.
use dps_files.Prelude.{
  ◌+◌, length, drop, take, not, ◌-◌, eqb, ◌&&◌, if◌then◌else◌, ◌++◌, refl, list_eq, nat_eq, ℕ, ◌∙◌,
  List, ◌≡◌, none, some, [], ◌∷◌, zero, suc,
}
use dps_files.KeyStore.Types.{
  uint32, get_local_block_location, Store, Platform, File, FileReference, MetaData, metadata_path,
  cache_path_for_hash,
}
use dps_files.KeyStore.Naming.{
  Bool-cases, subst, ChunkLoc, inr, inl, Option, Option-cases, arith, Bytes, ap, IsSound, IsFree,
  SameFiles-IsSound, track-IsSound, clear_slot-IsSound,
}
use dps_files.KeyStore.Chunk.{
  clear_slot, delete_file_reference, deletion_path, owned_slot, store_file_reference,
}
use dps_files.Prelude.Map.{lookup, lookup-insert_self}
use dps_files.KeyStore.Exec.{Result, size_mismatch, ok, err, system_call, write_file}
use dps_files.KeyStore.Exec.Memory.{Result-cases}
use dps_files.KeyStore.Exec.Quiet.{
  SameFiles, SameFiles-trans, system_call-IsQuiet, write_file-IsQuiet, remove_if_present-IsQuiet,
}
use dps_files.KeyStore.Naming.Quiet.{store_file_reference-IsQuiet}
use dps_files.KeyStore.Index.{track, file_to_memory, upsert_cache_entry}
use dps_files.KeyStore.Files.Failure.{delete_references_ok}
use dps_files.KeyStore.Files.{
  load_and_commit, load_blocks, delete_references, store_blocks, new_block, block_data, commit_file,
  store_and_commit, total_size_of,
}

-- The file is the one that is known under its hash.
abbrev pub IsKnown : File → Store → Type 0
IsKnown file t = lookup file.meta_data.file_hash t.files ≡ some file

-- What a method that returns a file leaves.
abbrev pub Returns : Result File → Store → Type 0
Returns (ok file) t = IsSound t × IsKnown file t
Returns (err e) t = IsSound t

pub Returns-IsSound : (r : Result File) (t : Store) → Returns r t → IsSound t
Returns-IsSound (ok file) t (i, known) = i
Returns-IsSound (err e) t i = i

pub Returns-SameFiles : (r : Result File) (s t : Store) → SameFiles s t → Returns r s → Returns r t
Returns-SameFiles (ok file) s t same (i, known) = (
  SameFiles-IsSound s t same i,
  ap (λ files. lookup file.meta_data.file_hash files) same.0 ∙ known,
)
Returns-SameFiles (err e) s t same i = SameFiles-IsSound s t same i

delete_file_reference-SameFiles :
    (key : Bytes) (loc : ChunkLoc) (s : Store)
    → lookup key s.chunk_index ≡ some loc
    → SameFiles (clear_slot loc s) (delete_file_reference key s).1
unfolding delete_file_reference
delete_file_reference-SameFiles key loc s e =
    let path = deletion_path (get_local_block_location s.config key) (owned_slot loc s) in
    ground (arith, e, remove_if_present-IsQuiet path (clear_slot loc s))

pub delete_file_reference-IsSound :
    (key : Bytes) (s : Store) → IsSound s → IsSound (delete_file_reference key s).1
unfolding delete_file_reference
delete_file_reference-IsSound key s i = elim (Option-cases (lookup key s.chunk_index)) [
  | inl n ↦ rw (delete_file_reference, n) i
  | inr (loc, e) ↦
      SameFiles-IsSound (clear_slot loc s) (delete_file_reference key s).1
        (delete_file_reference-SameFiles key loc s e) (clear_slot-IsSound loc s i)
]

delete_references-IsSound :
    (refs : List (Option FileReference)) (s : Store)
    → IsSound s
    → IsSound (delete_references refs s).1
unfolding delete_references
delete_references-IsSound [] s i = i
delete_references-IsSound (none ∷ refs) s i = delete_references-IsSound refs s i
delete_references-IsSound (some ref ∷ refs) s i =
    delete_references-IsSound refs (delete_file_reference ref.key s).1
      (delete_file_reference-IsSound ref.key s i)

pub system_call_faultless : (s : Store) → s.faults ≡ [] → system_call s ≡ (ok tt, s)
unfolding system_call
system_call_faultless s f = ground (arith, f)

module _ (P : Platform) where
  pub file_to_memory-SameFiles :
      (file : File) (s : Store) → SameFiles (track file s) (file_to_memory P file s).1
  unfolding file_to_memory upsert_cache_entry
  file_to_memory-SameFiles file s =
      let hash = file.meta_data.file_hash in
      let a = track file s in
      let b = (system_call a).1 in
      let c = (write_file (metadata_path b.config hash) (P.encode_file file) b).1 in
      let d = (system_call c).1 in
      ground (
        arith,
        system_call-IsQuiet a,
        write_file-IsQuiet (metadata_path b.config hash) (P.encode_file file) b,
        system_call-IsQuiet c,
        write_file-IsQuiet (cache_path_for_hash d.config hash) (P.encode_file file) d,
      )

  pub file_to_memory-ok :
      (file : File) (s : Store) → s.faults ≡ [] → (file_to_memory P file s).0 ≡ ok tt
  unfolding file_to_memory upsert_cache_entry system_call write_file track
  file_to_memory-ok file s f = ground arith

  -- The outcome of the loops over the blocks: the files stay until a block fails.
  abbrev Blocks : {A : Type 0} → Store → Result A → Store → Type 0
  Blocks s (ok a) t = SameFiles s t
  Blocks s (err e) t = IsSound t

  Blocks-from :
      {A : Type 0} (s t u : Store) (r : Result A) → SameFiles s t → Blocks t r u → Blocks s r u
  Blocks-from s t u (ok a) same b = SameFiles-trans s t u same b
  Blocks-from s t u (err e) same b = b

  store_blocks-Blocks :
      (md : MetaData) (bytes : Bytes) (blocks i : ℕ) (refs : List (Option FileReference))
      (s : Store)
      → IsSound s
      → let r = store_blocks P md bytes blocks i refs s in Blocks s r.0 r.1
  unfolding store_blocks
  store_blocks-Blocks md bytes zero i refs s sound = (refl, refl, λ h. h)
  store_blocks-Blocks md bytes (suc blocks) i refs s sound =
      let block = block_data md bytes i in
      let stored = store_file_reference P (new_block P md i block) block s in
      let t = stored.1 in
      let same = store_file_reference-IsQuiet P (new_block P md i block) block s in
      elim (Result-cases stored) [
        | inl (ref, h) ↦
            rw (store_blocks, h)
              (Blocks-from s t _ _ same (
                store_blocks-Blocks md bytes blocks (suc i) (refs ++ some ref ∷ []) t
                  (SameFiles-IsSound s t same sound)))
        | inr (e, h) ↦
            rw (store_blocks, h, delete_references_ok refs t)
              (delete_references-IsSound refs t (SameFiles-IsSound s t same sound))
      ]

  load_blocks-Blocks :
      (md : MetaData) (bytes : Bytes) (blocks i offset : ℕ) (refs : List (Option FileReference))
      (s : Store)
      → IsSound s
      → let r = load_blocks P md bytes blocks i offset refs s in Blocks s r.0 r.1
  unfolding load_blocks
  load_blocks-Blocks md bytes zero i offset refs s sound = (refl, refl, λ h. h)
  load_blocks-Blocks md bytes (suc blocks) i offset refs s sound =
      let wanted =
        (if eqb i (md.total_blocks - 1) then uint32 (md.total_size - offset) else md.block_size) in
      let block = take wanted (drop offset bytes) in
      let stored = store_file_reference P (new_block P md i block) block s in
      let t = stored.1 in
      let same = store_file_reference-IsQuiet P (new_block P md i block) block s in
      let call = system_call_faultless s sound.faultless in
      elim (Bool-cases (eqb (length block) 0)) [
        | inl z ↦ rw (load_blocks, call, z) sound
        | inr z ↦ elim (Result-cases stored) [
          | inl (ref, h) ↦
              rw (load_blocks, call, z, h)
                (Blocks-from s t _ _ same (
                  load_blocks-Blocks md bytes blocks (suc i) (offset + length block)
                    (refs ++ some ref ∷ []) t (SameFiles-IsSound s t same sound)))
          | inr (e, h) ↦
              rw (load_blocks, call, z, h, delete_references_ok refs t)
                (delete_references-IsSound refs t (SameFiles-IsSound s t same sound))
        ]
      ]

  pub commit_file-Returns :
      (file : File) (s : Store)
      → IsSound s
      → IsFree file s.files
      → let r = commit_file P file s in Returns r.0 r.1
  unfolding commit_file track
  commit_file-Returns file s sound free =
      let t = (file_to_memory P file s).1 in
      let same = file_to_memory-SameFiles file s in
      rw (commit_file, file_to_memory-ok file s sound.faultless)
        (Returns-SameFiles (ok file) (track file s) t same (
          track-IsSound file s free sound,
          lookup-insert_self file.meta_data.file_hash file s.files,
        ))

  -- A file whose hash is not known is free.
  pub IsFree-unknown :
      (md : MetaData) (refs : List (Option FileReference)) (s t : Store)
      → lookup md.file_hash s.files ≡ none
      → SameFiles s t
      → IsFree (record { meta_data = md; references = refs }) t.files
  IsFree-unknown md refs s t unknown (files, _, _) old h =
      absurd (ground (arith, unknown, files, h))

  pub store_and_commit-Returns :
      (md : MetaData) (bytes : Bytes) (s : Store)
      → IsSound s
      → lookup md.file_hash s.files ≡ none
      → let r = store_and_commit P md bytes s in Returns r.0 r.1
  unfolding store_and_commit
  store_and_commit-Returns md bytes s sound unknown =
      let r = store_blocks P md bytes md.total_blocks 0 [] s in
      let post = store_blocks-Blocks md bytes md.total_blocks 0 [] s sound in
      elim (Result-cases r) [
        | inr (e, h) ↦ rw (store_and_commit, h) (subst (λ x. Blocks s x r.1) h post)
        | inl (refs, h) ↦
            let same = subst (λ x. Blocks s x r.1) h post in
            let after = SameFiles-IsSound s r.1 same sound in
            elim (Bool-cases (eqb (total_size_of refs) md.total_size)) [
              | inl z ↦
                  let q : store_and_commit P md bytes s
                      ≡ commit_file P (record { meta_data = md; references = refs }) r.1 =
                    ground (arith, h, z) in
                  rw q (
                    commit_file-Returns (record { meta_data = md; references = refs }) r.1 after
                      (IsFree-unknown md refs s r.1 unknown same))
              | inr z ↦
                  let q : store_and_commit P md bytes s
                      ≡ (err size_mismatch, (delete_references refs r.1).1) =
                    ground (arith, h, z, delete_references_ok refs r.1) in
                  rw q (delete_references-IsSound refs r.1 after)
            ]
      ]

  pub load_and_commit-Returns :
      (md : MetaData) (bytes : Bytes) (s : Store)
      → IsSound s
      → lookup md.file_hash s.files ≡ none
      → let r = load_and_commit P md bytes s in Returns r.0 r.1
  unfolding load_and_commit
  load_and_commit-Returns md bytes s sound unknown =
      let r = load_blocks P md bytes md.total_blocks 0 0 [] s in
      let post = load_blocks-Blocks md bytes md.total_blocks 0 0 [] s sound in
      elim (Result-cases r) [
        | inr (e, h) ↦ rw (load_and_commit, h) (subst (λ x. Blocks s x r.1) h post)
        | inl (refs, h) ↦
            let same = subst (λ x. Blocks s x r.1) h post in
            let after = SameFiles-IsSound s r.1 same sound in
            let bad = r.1.config.verify_on_write && not (eqb (total_size_of refs) md.total_size) in
            elim (Bool-cases bad) [
              | inr z ↦
                  let q : load_and_commit P md bytes s
                      ≡ commit_file P (record { meta_data = md; references = refs }) r.1 =
                    ground (arith, h, z) in
                  rw q (
                    commit_file-Returns (record { meta_data = md; references = refs }) r.1 after
                      (IsFree-unknown md refs s r.1 unknown same))
              | inl z ↦
                  let q : load_and_commit P md bytes s
                      ≡ (err size_mismatch, (delete_references refs r.1).1) =
                    ground (arith, h, z, delete_references_ok refs r.1) in
                  rw q (delete_references-IsSound refs r.1 after)
            ]
      ]
