-- ===== src/KeyStore/Naming/Receiving.antt =====
-- StoreFromReader of files.go, when no call fails: names and hashes keep leading to their files.
use dps_files.KeyStore.Exec.{size_mismatch, Result, ok, err, remove, write_file}
use dps_files.Prelude.{length, eqb, text, ◌++◌, list_eq, nat_eq, ◌==◌, ℕ, ◌≡◌, some, [], ◌∷◌, false}
use dps_files.KeyStore.Files.{
  ingest, take_name, load_and_store_file_local, store_from_reader, patch_name, renamed,
}
use dps_files.KeyStore.Naming.Storing.{Returns, IsKnown, file_to_memory-SameFiles}
use dps_files.KeyStore.Naming.{
  IsKeyed-insert, ==_refl, ==→eq, subst, inr, Bool-cases, inl, Bytes, arith, IsSound, IsNamed,
  IsFree, SameFiles-IsSound, track-IsSound,
}
use dps_files.Prelude.Map.{
  Map, lookup, insert, erase, lookup-insert, lookup-erase, lookup-insert_self,
}
use dps_files.KeyStore.Types.{Store, Platform, File, FilePath}
use dps_files.KeyStore.Exec.Memory.{Result-cases}
use dps_files.KeyStore.Exec.Quiet.{write_file-IsQuiet, remove-IsQuiet}
use dps_files.KeyStore.Naming.Methods.{load_and_store_file_local-Returns}
use dps_files.KeyStore.Index.{track, file_to_memory}

-- The file under another name, in the place of the file.
IsNamed-renamed :
    (file g : File) (files : Map Bytes File) (names : Map Bytes Bytes)
    → lookup g.meta_data.file_hash files ≡ some file
    → IsNamed files names
    → IsNamed
        (insert g.meta_data.file_hash g files)
        (insert g.meta_data.file_name g.meta_data.file_hash (erase file.meta_data.file_name names))
IsNamed-renamed file g files names known n name hash h =
    let key = g.meta_data.file_hash in
    let others = erase file.meta_data.file_name names in
    elim (Bool-cases (g.meta_data.file_name == name)) [
      | inl e ↦
          let at : key ≡ hash =
            ground (arith, lookup-insert name g.meta_data.file_name key others, e, h) in
          (
            g,
            subst (λ k. lookup k (insert key g files) ≡ some g) at (lookup-insert_self key g files),
            ==→eq g.meta_data.file_name name e,
          )
      | inr e ↦
          let old : (lookup name names ≡ some hash) × ((file.meta_data.file_name == name) ≡ false) =
            ground (
              arith,
              lookup-insert name g.meta_data.file_name key others,
              lookup-erase name file.meta_data.file_name names,
              e,
              h,
            ) in
          let (f, there, called) = n name hash old.0 in
          (
            f,
            ground (
              arith,
              lookup-insert hash key g files,
              there,
              called,
              old.1,
              known,
              ==→eq key hash,
              ==_refl name,
            ),
            called,
          )
    ]

module _ (P : Platform) where
  renaming-IsSound :
      (name : Bytes) (file : File) (s : Store)
      → IsSound s
      → IsKnown file s
      → let t = (file_to_memory P (renamed P name file) (patch_name P name file s)).1 in IsSound t
  unfolding patch_name renamed
  renaming-IsSound name file s i known =
      let g = renamed P name file in
      let u = patch_name P name file s in
      let files : u.files ≡ insert g.meta_data.file_hash g s.files = ground (arith, known) in
      let sound : IsSound u = record {
        faultless = i.faultless;
        keyed = rw files (IsKeyed-insert g s.files i.keyed);
        named = rw files (IsNamed-renamed file g s.files s.files_by_name known i.named);
      } in
      let free : IsFree g u.files =
        λ old h. ground (arith, h, files, lookup-insert_self g.meta_data.file_hash g s.files) in
      SameFiles-IsSound (track g u) _ (file_to_memory-SameFiles P g u)
        (track-IsSound g u free sound)

  take_name-IsSound :
      (name : Bytes) (file : File) (s : Store)
      → IsSound s
      → IsKnown file s
      → IsSound (take_name P name file s).1
  unfolding take_name
  take_name-IsSound name file s i known = elim (Bool-cases (file.meta_data.file_name == name)) [
    | inl e ↦ rw (take_name, e) i
    | inr e ↦
        let u = patch_name P name file s in
        let r = file_to_memory P (renamed P name file) u in
        let q : (take_name P name file s).1 ≡ r.1 = ground (arith, e) in
        rw q (renaming-IsSound name file s i known)
  ]

  ingest-IsSound :
      (random : Bytes) (permissions : ℕ) (name : Bytes) (received : Result Bytes) (size : ℕ)
      (tmp : FilePath) (s : Store)
      → IsSound s
      → IsSound (ingest P random permissions name received size tmp s).1
  unfolding ingest
  ingest-IsSound random permissions name (err e) size tmp s i = i
  ingest-IsSound random permissions name (ok bytes) size tmp s i =
      let a = write_file tmp bytes s in
      let j = SameFiles-IsSound s a.1 (write_file-IsQuiet tmp bytes s) i in
      let b = load_and_store_file_local P random permissions tmp a.1 in
      let post = load_and_store_file_local-Returns P random permissions tmp a.1 j in
      let m = ingest P random permissions name (ok bytes) size tmp in
      elim (Result-cases a) [
        | inr (e, h) ↦ let q : m s ≡ (err e, a.1) = ground (arith, h) in rw q j
        | inl (_, h) ↦ elim (Bool-cases (eqb (length bytes) size)) [
          | inr z ↦ let q : m s ≡ (err size_mismatch, a.1) = ground (arith, h, z) in rw q j
          | inl z ↦ elim (Result-cases b) [
            | inr (e, g) ↦
                let q : m s ≡ (err e, b.1) = ground (arith, h, z, g) in
                rw q (subst (λ x. Returns x b.1) g post)
            | inl (file, g) ↦
                let (k, known) = subst (λ x. Returns x b.1) g post in
                let q : m s ≡ take_name P name file b.1 = ground (arith, h, z, g) in
                rw q (take_name-IsSound name file b.1 k known)
          ]
        ]
      ]

  pub store_from_reader-IsSound :
      (random tmp_random : Bytes) (permissions : ℕ) (name : Bytes) (received : Result Bytes)
      (size : ℕ) (s : Store)
      → IsSound s
      → IsSound (store_from_reader P random tmp_random permissions name received size s).1
  unfolding store_from_reader
  store_from_reader-IsSound random tmp_random permissions name received size s i =
      let tmp = s.config.storage_dir ++ (text "upload-" ++ tmp_random) ∷ [] in
      let a = write_file tmp [] s in
      let j = SameFiles-IsSound s a.1 (write_file-IsQuiet tmp [] s) i in
      let b = ingest P random permissions name received size tmp a.1 in
      let m = store_from_reader P random tmp_random permissions name received size in
      let k = ingest-IsSound random permissions name received size tmp a.1 j in
      elim (Result-cases a) [
        | inr (e, h) ↦ let q : m s ≡ (err e, a.1) = ground (arith, h) in rw q j
        | inl (_, h) ↦
            let q : (m s).1 ≡ (remove tmp b.1).1 = ground (arith, h) in
            rw q (SameFiles-IsSound b.1 (remove tmp b.1).1 (remove-IsQuiet tmp b.1) k)
      ]
