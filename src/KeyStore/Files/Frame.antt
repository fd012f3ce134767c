-- ===== src/KeyStore/Files/Frame.antt =====
-- What DeleteFile and CleanupExpired of key_store.go leave alone.
use dps_files.KeyStore.Files.Deletion.{
  Deleted, delete_file-others, delete_file-Deleted, delete_file-unknown, delete_file-stopped,
  delete_file-refused, delete_file-done,
}
use dps_files.KeyStore.Exec.{Result, ok, err, remove_if_present}
use dps_files.Prelude.{
  subst, ==_refl, ◌+◌, Option, Option-cases, Bool-cases, contains, ==→eq, ◌==◌, list_eq, nat_eq, ℕ,
  ◌≡◌, ◌≢◌, inl, inr, refl, ◌∙◌, sym, ap, none, some, true, false, List, [], ◌∷◌, Bytes, arith,
}
use dps_files.Prelude.Map.{lookup, lookup-erase_ne}
use dps_files.KeyStore.Types.{Store, File, FilePath, FileReference, KeyStoreConfig, metadata_path}
use dps_files.KeyStore.Exec.Memory.{
  Result-cases, remove_if_present-memory, remove_if_present-lookup_ne,
}
use dps_files.KeyStore.Files.{drop_chunk, delete_chunks, delete_file, delete_all}

==_false : (a b : Bytes) → (a == b) ≡ false → a ≢ b
==_false a b n e = absurd (ground (arith, n, ==_refl a, ap (λ c. a == c) e))

Deleted-fewer :
    (key : Bytes) (old file : File) (s : Store) (r : Result (Unit {0})) (t : Store)
    → Deleted key old s r t
    → lookup key t.files ≡ some file
    → lookup key s.files ≡ some file
Deleted-fewer key old file s (ok _) t (gone, _, _, _) h = absurd (ground (arith, gone, h))
Deleted-fewer key old file s (err _) t (same, _) h = ap (λ m. lookup key m) (sym same) ∙ h

delete_file-fewer_same :
    (key other : Bytes) (file : File) (s : Store)
    → key ≡ other
    → lookup other (delete_file key s).1.files ≡ some file
    → lookup other s.files ≡ some file
delete_file-fewer_same key other file s e =
    subst (λ k. lookup k (delete_file key s).1.files ≡ some file → lookup k s.files ≡ some file) e
      (λ h. elim (Option-cases (lookup key s.files)) [
        | inl u ↦ ap (λ r. lookup key r.1.files) (sym (delete_file-unknown key s u)) ∙ h
        | inr (old, k) ↦
            let r = delete_file key s in
            Deleted-fewer key old file s r.0 r.1 (delete_file-Deleted key old s k) h
      ])

-- DeleteFile lists no file anew.
delete_file-fewer :
    (key other : Bytes) (file : File) (s : Store)
    → lookup other (delete_file key s).1.files ≡ some file
    → lookup other s.files ≡ some file
delete_file-fewer key other file s h = elim (Bool-cases (key == other)) [
  | inr n ↦ sym (delete_file-others key other s (λ e. ==_false key other n e)) ∙ h
  | inl e ↦ delete_file-fewer_same key other file s (==→eq key other e) h
]

module _ (path : FilePath) (chunk name : Bytes) where
  -- The path holds what it held, the key of the chunk is indexed as it was, and the name leads where it
  -- led; the settings are the same.
  abbrev pub IsKept : Store → Store → Type 0
  IsKept s t =
      (t.config ≡ s.config)
      × (lookup path t.disk ≡ lookup path s.disk)
      × (lookup chunk t.chunk_index ≡ lookup chunk s.chunk_index)
      × (lookup name t.files_by_name ≡ lookup name s.files_by_name)

  -- No reference has this path as its location or this key.
  abbrev pub AreApart : List (Option FileReference) → Type 0
  AreApart [] = Unit {0}
  AreApart (none ∷ refs) = AreApart refs
  AreApart (some ref ∷ refs) = (ref.location ≢ path) × (ref.key ≢ chunk) × AreApart refs

  -- Nothing of the file is there: neither its metadata, nor a chunk, nor its name.
  abbrev pub IsElsewhere : KeyStoreConfig → Bytes → File → Type 0
  IsElsewhere c key file =
      (metadata_path c key ≢ path) × AreApart file.references × (file.meta_data.file_name ≢ name)

  IsKept-trans : (s t u : Store) → IsKept s t → IsKept t u → IsKept s u
  IsKept-trans s t u (a, b, c, d) (e, f, g, h) = (e ∙ a, f ∙ b, g ∙ c, h ∙ d)

  remove_if_present-IsKept :
      (other : FilePath) (s : Store) → other ≢ path → IsKept s (remove_if_present other s).1
  remove_if_present-IsKept other s n =
      let m = remove_if_present-memory other s in
      (
        ap (λ (t : Store). t.config) m,
        remove_if_present-lookup_ne path other s n,
        ap (λ (t : Store). lookup chunk t.chunk_index) m,
        ap (λ (t : Store). lookup name t.files_by_name) m,
      )

  drop_chunk-IsKept :
      (ref : FileReference) (s : Store)
      → ref.location ≢ path
      → ref.key ≢ chunk
      → IsKept s (drop_chunk ref s).1
  unfolding drop_chunk
  drop_chunk-IsKept ref s p k =
      let t = (remove_if_present ref.location s).1 in
      ground (
        arith,
        remove_if_present-IsKept ref.location s p,
        lookup-erase_ne chunk ref.key s.chunk_index k,
        lookup-erase_ne chunk ref.key t.chunk_index k,
      )

  delete_chunks-IsKept :
      (refs : List (Option FileReference)) (s : Store)
      → AreApart refs
      → IsKept s (delete_chunks refs s).1
  unfolding delete_chunks
  delete_chunks-IsKept [] s a = (refl, refl, refl, refl)
  delete_chunks-IsKept (none ∷ refs) s a = delete_chunks-IsKept refs s a
  delete_chunks-IsKept (some ref ∷ refs) s (p, k, a) =
      let t = (drop_chunk ref s).1 in
      let first = drop_chunk-IsKept ref s p k in
      elim (Result-cases (drop_chunk ref s)) [
        | inl (u, h) ↦
            rw h (IsKept-trans s t (delete_chunks refs t).1 first (delete_chunks-IsKept refs t a))
        | inr (e, h) ↦ rw h first
      ]

  delete_file-IsKept :
      (key : Bytes) (s : Store)
      → ((file : File) → lookup key s.files ≡ some file → IsElsewhere s.config key file)
      → IsKept s (delete_file key s).1
  unfolding delete_file
  delete_file-IsKept key s apart = elim (Option-cases (lookup key s.files)) [
    | inl e ↦ ground (arith, e)
    | inr (file, h) ↦
        let (m, refs, n) = apart file h in
        let t = (delete_chunks file.references s).1 in
        let first = delete_chunks-IsKept file.references s refs in
        let meta = metadata_path s.config key in
        let u = (remove_if_present meta t).1 in
        let both = IsKept-trans s t u first (remove_if_present-IsKept meta t m) in
        elim (Result-cases (delete_chunks file.references s)) [
          | inr (e, f) ↦ rw (delete_file-stopped key file s h e f) first
          | inl (_, f) ↦ elim (Result-cases (remove_if_present meta t)) [
            | inr (e, g) ↦ rw (delete_file-refused key file s h f e g) both
            | inl (_, g) ↦ rw (delete_file-done key file s h f g) (
              both.0,
              both.1,
              both.2,
              lookup-erase_ne name file.meta_data.file_name u.files_by_name n ∙ both.3,
            )
          ]
        ]
  ]

  -- The same of the files of several keys.
  pub delete_all-IsKept :
      (keys : List Bytes) (removed : ℕ) (c : KeyStoreConfig) (s : Store)
      → s.config ≡ c
      → ((key : Bytes) (file : File)
          → contains key keys ≡ true
          → lookup key s.files ≡ some file
          → IsElsewhere c key file)
      → IsKept s (delete_all keys removed s).1
  unfolding delete_all contains
  delete_all-IsKept [] removed c s e apart = (refl, refl, refl, refl)
  delete_all-IsKept (key ∷ keys) removed c s e apart =
      let r = delete_file key s in
      let t = r.1 in
      let here : contains key (key ∷ keys) ≡ true = ground (arith, ==_refl key) in
      let first = delete_file-IsKept key s (λ file h. rw e (apart key file here h)) in
      let later : (n : ℕ) → IsKept t (delete_all keys n t).1 = λ n.
        delete_all-IsKept keys n c t (first.0 ∙ e)
          (λ k file i h. apart k file (ground (arith, i)) (delete_file-fewer key k file s h)) in
      elim (Result-cases r) [
        | inl (_, f) ↦
            rw f (IsKept-trans s t (delete_all keys (removed + 1) t).1 first (later (removed + 1)))
        | inr (x, f) ↦ rw f (IsKept-trans s t (delete_all keys removed t).1 first (later removed))
      ]
