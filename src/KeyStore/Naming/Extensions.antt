-- ===== src/KeyStore/Naming/Extensions.antt =====
-- CleanupExtensions and UpdateLocalMetaData (key_store.go, metadata.go), when no call fails: names and
-- hashes keep leading to their files.
use dps_files.KeyStore.Naming.Removal.{forgotten_all-IsSound}
use dps_files.KeyStore.Exec.{ok, err, remove, when}
use dps_files.KeyStore.Exec.Quiet.{
  SameFiles-trans, remove-IsQuiet, bind-IsQuiet, when-IsQuiet, IsQuiet,
}
use dps_files.Prelude.{list_eq, nat_eq, none, ◌≡◌, ◌++◌, Option, Bytes, List, contains, refl}
use dps_files.KeyStore.Naming.{
  inl, SameFiles-IsSound, arith, inr, Result-cases, [], some, ◌∷◌, IsSound,
}
use dps_files.KeyStore.Cleaning.{
  extension, path_extension, indexed_reference, forget, cleanup_extensions, remove_indexed_matching,
  remove_matching, remove_named_matching,
}
use dps_files.KeyStore.Cache.{file_names}
use dps_files.KeyStore.Start.{metadata_dir}
use dps_files.KeyStore.Types.{FileReference, ChunkLoc, FilePath, Store}
use dps_files.KeyStore.Naming.Storing.{system_call_faultless}
use dps_files.Prelude.Map.{Map}

remove_matching-IsQuiet :
    (extensions : List Bytes) (ref : Option FileReference)
    → IsQuiet (remove_matching extensions ref)
unfolding remove_matching
remove_matching-IsQuiet extensions none s = (refl, refl, λ h. h)
remove_matching-IsQuiet extensions (some ref) s =
    when-IsQuiet (contains (path_extension ref.location) extensions) (remove ref.location)
      (remove-IsQuiet ref.location) s

remove_indexed_matching-IsQuiet :
    (extensions : List Bytes) (index : Map Bytes ChunkLoc)
    → IsQuiet (remove_indexed_matching extensions index)
unfolding remove_indexed_matching
remove_indexed_matching-IsQuiet extensions [] s = (refl, refl, λ h. h)
remove_indexed_matching-IsQuiet extensions ((key, loc) ∷ index) s =
    let ref = indexed_reference loc s.files in
    bind-IsQuiet (remove_matching extensions ref) (λ _. remove_indexed_matching extensions index)
      (remove_matching-IsQuiet extensions ref)
      (λ _. remove_indexed_matching-IsQuiet extensions index) s

remove_named_matching-IsQuiet :
    (extensions : List Bytes) (dir : FilePath) (names : List Bytes)
    → IsQuiet (remove_named_matching extensions dir names)
unfolding remove_named_matching
remove_named_matching-IsQuiet extensions dir [] s = (refl, refl, λ h. h)
remove_named_matching-IsQuiet extensions dir (name ∷ names) s =
    let path = dir ++ name ∷ [] in
    let m = when (contains (extension name) extensions) (remove path) in
    bind-IsQuiet m (λ _. remove_named_matching extensions dir names)
      (when-IsQuiet (contains (extension name) extensions) (remove path) (remove-IsQuiet path))
      (λ _. remove_named_matching-IsQuiet extensions dir names) s

pub cleanup_extensions-IsSound :
    (extensions : List Bytes) (s : Store) → IsSound s → IsSound (cleanup_extensions extensions s).1
unfolding cleanup_extensions forget
cleanup_extensions-IsSound extensions s i =
    let a = remove_indexed_matching extensions s.chunk_index s in
    let same_a = remove_indexed_matching-IsQuiet extensions s.chunk_index s in
    let fa = same_a.2 i.faultless in
    let dir = metadata_dir a.1.config in
    let names = file_names dir a.1.disk in
    let b = remove_named_matching extensions dir names a.1 in
    let fb = (remove_named_matching-IsQuiet extensions dir names a.1).2 fa in
    elim (Result-cases a) [
      | inr (e, h) ↦
          let q : cleanup_extensions extensions s ≡ (err e, a.1) = ground (arith, h) in
          rw q (SameFiles-IsSound s a.1 same_a i)
      | inl (_, h) ↦ elim (Result-cases b) [
        | inr (e, g) ↦
            let q : cleanup_extensions extensions s ≡ (err e, b.1) =
              ground (arith, h, g, system_call_faultless a.1 fa) in
            rw q (
              SameFiles-IsSound s b.1
                (SameFiles-trans s a.1 b.1 same_a
                  (remove_named_matching-IsQuiet extensions dir names a.1))
                i)
        | inl (_, g) ↦
            let q : cleanup_extensions extensions s ≡ (ok tt, forget b.1) =
              ground (arith, h, g, system_call_faultless a.1 fa) in
            rw q (forgotten_all-IsSound (forget b.1) fb refl refl)
      ]
    ]
