-- ===== src/KeyStore/Naming/Methods.antt =====
-- The methods of KeyStore that return a file (files.go, key_store.go), when no call fails: names and
-- hashes keep leading to their files.
use dps_files.KeyStore.Types.{FilePath, Store, Platform, File, MetaData}
use dps_files.KeyStore.Naming.{
  subst, lookup-insert_self, Bool-cases, arith, inr, ap, inl, Option, Option-cases, Bytes, IsSound,
  IsFree, SameFiles-IsSound, track-IsSound, forgotten-IsSound,
}
use dps_files.Prelude.{ℕ, refl, ◌∙◌, list_eq, nat_eq, ◌≡◌, none, some, true, false}
use dps_files.Prelude.Map.{lookup, lookup-erase_self}
use dps_files.KeyStore.Exec.{pure, ◌>>=◌, ◌>>◌, read_file, Exec, Result, ok, err, deferred}
use dps_files.KeyStore.Exec.Memory.{Result-cases}
use dps_files.KeyStore.Exec.Quiet.{read_file-IsQuiet, SameFiles-trans}
use dps_files.KeyStore.Naming.Quiet.{
  has_missing_references-IsQuiet, ensure_hash_not_cached-IsQuiet, write_intent-IsQuiet,
  clear_intent-IsQuiet,
}
use dps_files.KeyStore.Naming.Storing.{
  system_call_faultless, Returns, IsKnown, Returns-SameFiles, file_to_memory-SameFiles,
  file_to_memory-ok, store_and_commit-Returns, load_and_commit-Returns,
}
use dps_files.KeyStore.Index.{
  track, file_to_memory, existing_file_by_hash, drop_file_from_memory, is_expired,
  has_missing_references, refreshed, reactivate,
}
use dps_files.KeyStore.Cache.{ensure_hash_not_cached}
use dps_files.KeyStore.Intent.{write_intent, clear_intent}
use dps_files.KeyStore.Files.{
  base_name, loaded_meta_data, store_and_commit, load_and_commit, store_file_local,
  load_and_store_file_local, local_meta_data,
}

-- What existingFileByHash leaves.
abbrev pub Existing : Bytes → Result (Option File) → Store → Type 0
Existing key (ok none) t = IsSound t × (lookup key t.files ≡ none)
Existing key (ok (some file)) t = Returns (ok file) t
Existing key (err e) t = IsSound t

drop_file_from_memory-IsSound :
    (key : Bytes) (file : File) (s : Store)
    → lookup key s.files ≡ some file
    → IsSound s
    → let t = (drop_file_from_memory key s).1 in IsSound t × (lookup key t.files ≡ none)
unfolding drop_file_from_memory
drop_file_from_memory-IsSound key file s known i =
    rw (drop_file_from_memory, known)
      (forgotten-IsSound key file s _ known i refl refl i.faultless, lookup-erase_self key s.files)

module _ (P : Platform) where
  reactivate-Existing :
      (key : Bytes) (file : File) (s : Store)
      → lookup key s.files ≡ some file
      → IsSound s
      → let r = reactivate P file s in Existing key r.0 r.1
  unfolding reactivate refreshed track
  reactivate-Existing key file s known i =
      let at : file.meta_data.file_hash ≡ key = i.keyed key file known in
      let here : IsKnown file s = ap (λ k. lookup k s.files) at ∙ known in
      elim (Bool-cases (is_expired s.clock file)) [
        | inr e ↦
            let q : reactivate P file s ≡ (ok (some file), s) = ground (arith, e) in rw q (i, here)
        | inl e ↦
            let fresh = refreshed P file s in
            let r = file_to_memory P fresh s in
            let free : IsFree fresh s.files = λ old h. ground (arith, h, here) in
            let q : reactivate P file s ≡ (ok (some fresh), r.1) =
              ground (arith, e, file_to_memory-ok P fresh s i.faultless) in
            rw q (
              Returns-SameFiles (ok fresh) (track fresh s) r.1 (file_to_memory-SameFiles P fresh s)
                (
                  track-IsSound fresh s free i,
                  lookup-insert_self file.meta_data.file_hash fresh s.files,
                ))
      ]

  pub existing_file_by_hash-Existing :
      (key : Bytes) (s : Store)
      → IsSound s
      → let r = existing_file_by_hash P key s in Existing key r.0 r.1
  unfolding existing_file_by_hash drop_file_from_memory
  existing_file_by_hash-Existing key s i = elim (Option-cases (lookup key s.files)) [
    | inl e ↦ rw (existing_file_by_hash, e) (i, e)
    | inr (file, e) ↦
        let r = has_missing_references file.references s in
        let same = has_missing_references-IsQuiet file.references s in
        let j = SameFiles-IsSound s r.1 same i in
        let known : lookup key r.1.files ≡ some file = ap (lookup key) same.0 ∙ e in
        elim (Result-cases r) [
          | inr (x, h) ↦
              let q : existing_file_by_hash P key s ≡ (err x, r.1) = ground (arith, e, h) in rw q j
          | inl (true, h) ↦
              let q : existing_file_by_hash P key s ≡ (ok none, (drop_file_from_memory key r.1).1) =
                ground (arith, e, h, known) in
              rw q (drop_file_from_memory-IsSound key file r.1 known j)
          | inl (false, h) ↦
              let q : existing_file_by_hash P key s ≡ reactivate P file r.1 =
                ground (arith, e, h) in
              rw q (reactivate-Existing key file r.1 known j)
        ]
  ]

  -- the end of StoreFileLocal and LoadAndStoreFileLocal, for a hash that is not known
  abbrev store_new : Bytes → MetaData → Exec File → Exec File
  store_new random md m = do
    ensure_hash_not_cached P md.file_hash
    write_intent P random md
    deferred (clear_intent md.file_hash) m

  store_new-Returns :
      (random : Bytes) (md : MetaData) (m : Exec File) (s : Store)
      → ((t : Store)
          → IsSound t
          → lookup md.file_hash t.files ≡ none
          → let r = m t in Returns r.0 r.1)
      → IsSound s
      → lookup md.file_hash s.files ≡ none
      → let r = store_new random md m s in Returns r.0 r.1
  store_new-Returns random md m s k i unknown =
      let a = ensure_hash_not_cached P md.file_hash s in
      let same_a = ensure_hash_not_cached-IsQuiet P md.file_hash s in
      let b = write_intent P random md a.1 in
      let same_b = SameFiles-trans s a.1 b.1 same_a (write_intent-IsQuiet P random md a.1) in
      let c = m b.1 in
      let d = clear_intent md.file_hash c.1 in
      elim (Result-cases a) [
        | inr (e, h) ↦
            let q : store_new random md m s ≡ (err e, a.1) = ground (arith, h) in
            rw q (SameFiles-IsSound s a.1 same_a i)
        | inl (_, h) ↦ elim (Result-cases b) [
          | inr (e, g) ↦
              let q : store_new random md m s ≡ (err e, b.1) = ground (arith, h, g) in
              rw q (SameFiles-IsSound s b.1 same_b i)
          | inl (_, g) ↦
              let q : store_new random md m s ≡ (c.0, d.1) = ground (arith, h, g) in
              rw q (
                Returns-SameFiles c.0 c.1 d.1 (clear_intent-IsQuiet md.file_hash c.1) (
                  k b.1 (SameFiles-IsSound s b.1 same_b i)
                    (ap (lookup md.file_hash) same_b.0 ∙ unknown)))
        ]
      ]

  -- the same from existingFileByHash on
  abbrev store_hash : Bytes → MetaData → Exec File → Exec File
  store_hash random md m = do
    existing ← existing_file_by_hash P md.file_hash
    elim existing [ some file ↦ pure file | none ↦ store_new random md m ]

  store_hash-Returns :
      (random : Bytes) (md : MetaData) (m : Exec File) (s : Store)
      → ((t : Store)
          → IsSound t
          → lookup md.file_hash t.files ≡ none
          → let r = m t in Returns r.0 r.1)
      → IsSound s
      → let r = store_hash random md m s in Returns r.0 r.1
  store_hash-Returns random md m s k i =
      let a = existing_file_by_hash P md.file_hash s in
      let post = existing_file_by_hash-Existing md.file_hash s i in
      elim (Result-cases a) [
        | inr (e, h) ↦
            let q : store_hash random md m s ≡ (err e, a.1) = ground (arith, h) in
            rw q (subst (λ x. Existing md.file_hash x a.1) h post)
        | inl (some file, h) ↦
            let q : store_hash random md m s ≡ (ok file, a.1) = ground (arith, h) in
            rw q (subst (λ x. Existing md.file_hash x a.1) h post)
        | inl (none, h) ↦
            let (j, unknown) = subst (λ x. Existing md.file_hash x a.1) h post in
            let q : store_hash random md m s ≡ store_new random md m a.1 = ground (arith, h) in
            rw q (store_new-Returns random md m a.1 k j unknown)
      ]

  pub store_file_local-Returns :
      (random name bytes : Bytes) (s : Store)
      → IsSound s
      → let r = store_file_local P random name bytes s in Returns r.0 r.1
  unfolding store_file_local
  store_file_local-Returns random name bytes s i =
      let md = local_meta_data P name bytes s in
      store_hash-Returns random md (store_and_commit P md bytes) s
        (store_and_commit-Returns P md bytes) i

  pub load_and_store_file_local-Returns :
      (random : Bytes) (permissions : ℕ) (path : FilePath) (s : Store)
      → IsSound s
      → let r = load_and_store_file_local P random permissions path s in Returns r.0 r.1
  unfolding load_and_store_file_local
  load_and_store_file_local-Returns random permissions path s i =
      let t = (read_file path s).1 in
      let same = read_file-IsQuiet path s in
      let j = SameFiles-IsSound s t same i in
      elim (Result-cases (read_file path s)) [
        | inr (e, h) ↦
            let q : load_and_store_file_local P random permissions path s ≡ (err e, t) =
              ground (arith, h) in
            rw q j
        | inl (bytes, h) ↦
            let md = loaded_meta_data P (base_name P path) permissions bytes t in
            let m = load_and_commit P md bytes in
            let q : load_and_store_file_local P random permissions path s
                ≡ store_hash random md m t =
              ground (arith, h, system_call_faultless t j.faultless) in
            rw q (store_hash-Returns random md m t (load_and_commit-Returns P md bytes) j)
      ]
