-- ===== src/KeyStore/Naming/Remote.antt =====
-- LoadAndStoreFileRemote of files.go, when no call fails: names and hashes keep leading to their files.
use dps_files.Prelude.{
  zero, ◌∷◌, ◌++◌, ◌+◌, length, drop, take, ◌∙◌, ◌-◌, eqb, if◌then◌else◌, suc, replicate, list_eq,
  nat_eq, List, ◌≡◌, ℕ, ◌⊎◌, Bytes, refl,
}
use dps_files.KeyStore.Naming.{
  Bool-cases, ap, some, [], subst, arith, Result-cases, Option, SameFiles-IsSound, inr, none, inl,
  IsSound,
}
use dps_files.KeyStore.Exec.Quiet.{
  system_call-IsQuiet, SameFiles-trans, SameFiles, read_file-IsQuiet,
}
use dps_files.KeyStore.Files.{new_block, base_name, commit_file, loaded_meta_data}
use dps_files.KeyStore.Naming.Storing.{
  IsFree-unknown, commit_file-Returns, Returns-IsSound, system_call_faultless,
}
use dps_files.KeyStore.Types.{uint32, FileReference, FilePath, Store, MetaData, File, Platform}
use dps_files.KeyStore.Naming.Quiet.{
  write_intent-IsQuiet, clear_intent-IsQuiet, ensure_hash_not_cached-IsQuiet,
}
use dps_files.KeyStore.Naming.Methods.{Existing, existing_file_by_hash-Existing}
use dps_files.KeyStore.Intent.{write_intent, clear_intent}
use dps_files.KeyStore.Cache.{ensure_hash_not_cached}
use dps_files.KeyStore.Remote.{
  Shared, pass_block, committed_file, read_into, hand_and_commit, hand_blocks, handed,
  load_and_store_file_remote, RemoteHandler, prepare_remote,
}
use dps_files.KeyStore.Exec.{err, read_file, ok, Exec, Result, ◌>>=◌, ◌>>◌, pure, system_call}
use dps_files.KeyStore.Index.{existing_file_by_hash}
use dps_files.Prelude.Map.{lookup}

-- What there is before the first block: a file that is known, or one that is not.
abbrev Prepared : Result (File ⊎ (MetaData × Bytes)) → Store → Type 0
Prepared (ok (inl file)) t = IsSound t
Prepared (ok (inr (md, bytes))) t = IsSound t × (lookup md.file_hash t.files ≡ none)
Prepared (err e) t = IsSound t

module _ (P : Platform) where
  -- the end of what comes before the first block
  abbrev prepare_new : Bytes → MetaData → Bytes → Exec (File ⊎ (MetaData × Bytes))
  prepare_new random md bytes = do
    ensure_hash_not_cached P md.file_hash
    write_intent P random md
    pure (inr (md, bytes))

  prepare_new-Prepared :
      (random : Bytes) (md : MetaData) (bytes : Bytes) (s : Store)
      → IsSound s
      → lookup md.file_hash s.files ≡ none
      → let r = prepare_new random md bytes s in Prepared r.0 r.1
  prepare_new-Prepared random md bytes s i unknown =
      let a = ensure_hash_not_cached P md.file_hash s in
      let same_a = ensure_hash_not_cached-IsQuiet P md.file_hash s in
      let b = write_intent P random md a.1 in
      let same_b = SameFiles-trans s a.1 b.1 same_a (write_intent-IsQuiet P random md a.1) in
      elim (Result-cases a) [
        | inr (e, h) ↦
            let q : prepare_new random md bytes s ≡ (err e, a.1) = ground (arith, h) in
            rw q (SameFiles-IsSound s a.1 same_a i)
        | inl (_, h) ↦ elim (Result-cases b) [
          | inr (e, g) ↦
              let q : prepare_new random md bytes s ≡ (err e, b.1) = ground (arith, h, g) in
              rw q (SameFiles-IsSound s b.1 same_b i)
          | inl (_, g) ↦
              let q : prepare_new random md bytes s ≡ (ok (inr (md, bytes)), b.1) =
                ground (arith, h, g) in
              rw q (SameFiles-IsSound s b.1 same_b i, ap (lookup md.file_hash) same_b.0 ∙ unknown)
        ]
      ]

  -- the same from existingFileByHash on
  abbrev prepare_hash : Bytes → MetaData → Bytes → Exec (File ⊎ (MetaData × Bytes))
  prepare_hash random md bytes = do
    existing ← existing_file_by_hash P md.file_hash
    elim existing [ some file ↦ pure (inl file) | none ↦ prepare_new random md bytes ]

  prepare_hash-Prepared :
      (random : Bytes) (md : MetaData) (bytes : Bytes) (s : Store)
      → IsSound s
      → let r = prepare_hash random md bytes s in Prepared r.0 r.1
  prepare_hash-Prepared random md bytes s i =
      let a = existing_file_by_hash P md.file_hash s in
      let post = existing_file_by_hash-Existing P md.file_hash s i in
      elim (Result-cases a) [
        | inr (e, h) ↦
            let q : prepare_hash random md bytes s ≡ (err e, a.1) = ground (arith, h) in
            rw q (subst (λ x. Existing md.file_hash x a.1) h post)
        | inl (some file, h) ↦
            let q : prepare_hash random md bytes s ≡ (ok (inl file), a.1) = ground (arith, h) in
            rw q ((subst (λ x. Existing md.file_hash x a.1) h post).0)
        | inl (none, h) ↦
            let (j, unknown) = subst (λ x. Existing md.file_hash x a.1) h post in
            let q : prepare_hash random md bytes s ≡ prepare_new random md bytes a.1 =
              ground (arith, h) in
            rw q (prepare_new-Prepared random md bytes a.1 j unknown)
      ]

  prepare_remote-Prepared :
      (random : Bytes) (permissions : ℕ) (path : FilePath) (s : Store)
      → IsSound s
      → let r = prepare_remote P random permissions path s in Prepared r.0 r.1
  unfolding prepare_remote
  prepare_remote-Prepared random permissions path s i =
      let t = (read_file path s).1 in
      let j = SameFiles-IsSound s t (read_file-IsQuiet path s) i in
      elim (Result-cases (read_file path s)) [
        | inr (e, h) ↦
            let q : prepare_remote P random permissions path s ≡ (err e, t) = ground (arith, h) in
            rw q j
        | inl (bytes, h) ↦
            let md = loaded_meta_data P (base_name P path) permissions bytes t in
            let q : prepare_remote P random permissions path s ≡ prepare_hash random md bytes t =
              ground (arith, h, system_call_faultless t j.faultless) in
            rw q (prepare_hash-Prepared random md bytes t j)
      ]

module _ (P : Platform) {H : Type 0} (R : RemoteHandler H) where
  hand_blocks-SameFiles :
      (md : MetaData) (bytes : Bytes) (blocks i offset : ℕ) (refs : List (Option FileReference))
      (m : Shared H) (s : Store)
      → SameFiles s (hand_blocks P R md bytes blocks i offset refs m s).1
  unfolding hand_blocks read_into pass_block
  hand_blocks-SameFiles md bytes zero i offset refs m s = (refl, refl, λ h. h)
  hand_blocks-SameFiles md bytes (suc blocks) i offset refs m s =
      let wanted =
        if eqb i (md.total_blocks - 1) then uint32 (md.total_size - offset) else md.block_size in
      let t = (system_call s).1 in
      let block = take wanted (drop offset bytes) in
      let n = length block in
      let read : Shared H = record m { buffer = read_into block m.buffer } in
      let ref = new_block P md i (take n read.buffer) in
      let first = system_call-IsQuiet s in
      let rest =
        hand_blocks-SameFiles md bytes blocks (suc i) (offset + n) (refs ++ some ref ∷ [])
          (pass_block P R ref n read) t in
      let all = hand_blocks P R md bytes (suc blocks) i offset refs m s in
      let last =
        hand_blocks P R md bytes blocks (suc i) (offset + n) (refs ++ some ref ∷ [])
          (pass_block P R ref n read) t in
      elim (Result-cases (system_call s)) [
        | inr (e, h) ↦ let q : all.1 ≡ t = ground (arith, h) in rw q first
        | inl (_, h) ↦ elim (Bool-cases (eqb n 0)) [
          | inl z ↦ let q : all.1 ≡ t = ground (arith, h, z) in rw q first
          | inr z ↦
              let q : all.1 ≡ last.1 = ground (arith, h, z) in
              rw q (SameFiles-trans s t last.1 first rest)
        ]
      ]

  hand_and_commit-IsSound :
      (md : MetaData) (bytes : Bytes) (h : H) (s : Store)
      → IsSound s
      → lookup md.file_hash s.files ≡ none
      → IsSound (hand_and_commit P R md bytes h s).1
  unfolding hand_and_commit committed_file
  hand_and_commit-IsSound md bytes h s i unknown =
      let m : Shared H = record {
        handler = R.start_receiver md h;
        buffer = replicate md.block_size 0;
      } in
      let r = hand_blocks P R md bytes md.total_blocks 0 0 [] m s in
      let same = hand_blocks-SameFiles md bytes md.total_blocks 0 0 [] m s in
      let j = SameFiles-IsSound s r.1 same i in
      elim (Result-cases (r.0.0, s)) [
        | inr (e, g) ↦
            let q : (hand_and_commit P R md bytes h s).1 ≡ r.1 = ground (arith, g) in rw q j
        | inl (refs, g) ↦
            let file : File = record { meta_data = md; references = refs } in
            let done = commit_file P file r.1 in
            let q : (hand_and_commit P R md bytes h s).1 ≡ done.1 = ground (arith, g) in
            rw q (
              Returns-IsSound done.0 done.1
                (commit_file-Returns P file r.1 j (IsFree-unknown P md refs s r.1 unknown same)))
      ]

  handed-IsSound :
      (h : H) (r : Result (File ⊎ (MetaData × Bytes))) (s : Store)
      → Prepared r s
      → IsSound (handed P R h r s).1
  unfolding handed
  handed-IsSound h (err e) s i = i
  handed-IsSound h (ok (inl file)) s i = i
  handed-IsSound h (ok (inr (md, bytes))) s (i, unknown) =
      let t = (hand_and_commit P R md bytes h s).1 in
      SameFiles-IsSound t (clear_intent md.file_hash t).1 (clear_intent-IsQuiet md.file_hash t)
        (hand_and_commit-IsSound md bytes h s i unknown)

  pub load_and_store_file_remote-IsSound :
      (random : Bytes) (permissions : ℕ) (path : FilePath) (h : H) (s : Store)
      → IsSound s
      → IsSound (load_and_store_file_remote P R random permissions path h s).1
  unfolding load_and_store_file_remote
  load_and_store_file_remote-IsSound random permissions path h s i =
      let r = prepare_remote P random permissions path s in
      handed-IsSound h r.0 r.1 (prepare_remote-Prepared P random permissions path s i)
