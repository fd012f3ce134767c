-- ===== src/KeyStore/Naming/Removal.antt =====
-- DeleteFile, CleanupExpired and Cleanup of key_store.go, when no call fails: names and hashes keep
-- leading to their files.
use dps_files.KeyStore.Exec.{ok, err, remove_if_present}
use dps_files.Prelude.{◌++◌, list_eq, nat_eq, ◌+◌, refl, ℕ, ◌≡◌, List, none, some, [], ◌∷◌}
use dps_files.KeyStore.Files.{drop_chunk, delete_chunks, delete_file, delete_all}
use dps_files.KeyStore.Naming.Storing.{system_call_faultless}
use dps_files.KeyStore.Cache.{file_names}
use dps_files.KeyStore.Naming.{
  ap, inr, inl, Option, Option-cases, Bytes, arith, IsSound, SameFiles-IsSound, forgotten-IsSound,
}
use dps_files.Prelude.Map.{Map, lookup, erase}
use dps_files.KeyStore.Types.{
  Store, FileReference, FilePath, ChunkLoc, metadata_path, chunk_data_dir,
}
use dps_files.KeyStore.Exec.Memory.{Result-cases}
use dps_files.KeyStore.Exec.Quiet.{IsQuiet, SameFiles-trans, remove_if_present-IsQuiet}
use dps_files.KeyStore.Cleaning.{
  cleanup, remove_indexed, remove_location, indexed_reference, remove_chunk_files, forget,
}

drop_chunk-IsQuiet : (ref : FileReference) → IsQuiet (drop_chunk ref)
unfolding drop_chunk
drop_chunk-IsQuiet ref s = ground (arith, remove_if_present-IsQuiet ref.location s)

delete_chunks-IsQuiet : (refs : List (Option FileReference)) → IsQuiet (delete_chunks refs)
unfolding delete_chunks
delete_chunks-IsQuiet [] s = (refl, refl, λ h. h)
delete_chunks-IsQuiet (none ∷ refs) s = delete_chunks-IsQuiet refs s
delete_chunks-IsQuiet (some ref ∷ refs) s =
    ground (arith, drop_chunk-IsQuiet ref s, delete_chunks-IsQuiet refs (drop_chunk ref s).1)

pub delete_file-IsSound : (key : Bytes) (s : Store) → IsSound s → IsSound (delete_file key s).1
unfolding delete_file
delete_file-IsSound key s i = elim (Option-cases (lookup key s.files)) [
  | inl e ↦ rw (delete_file, e) i
  | inr (file, e) ↦
      let a = delete_chunks file.references s in
      let same_a = delete_chunks-IsQuiet file.references s in
      let path = metadata_path a.1.config key in
      let b = remove_if_present path a.1 in
      let same = SameFiles-trans s a.1 b.1 same_a (remove_if_present-IsQuiet path a.1) in
      let last = record (b.1) {
        files_by_name = erase file.meta_data.file_name b.1.files_by_name;
        files = erase key b.1.files;
      } in
      elim (Result-cases a) [
        | inr (x, h) ↦
            let q : delete_file key s ≡ (err x, a.1) = ground (arith, e, h) in
            rw q (SameFiles-IsSound s a.1 same_a i)
        | inl (_, h) ↦ elim (Result-cases b) [
          | inr (x, g) ↦
              let q : delete_file key s ≡ (err x, b.1) = ground (arith, e, h, g) in
              rw q (SameFiles-IsSound s b.1 same i)
          | inl (_, g) ↦
              let q : delete_file key s ≡ (ok tt, last) = ground (arith, e, h, g) in
              rw q (
                forgotten-IsSound key file s last e i (ap (erase key) same.0)
                  (ap (erase file.meta_data.file_name) same.1) (same.2 i.faultless))
        ]
      ]
]

pub delete_all-IsSound :
    (keys : List Bytes) (removed : ℕ) (s : Store)
    → IsSound s
    → IsSound (delete_all keys removed s).1
unfolding delete_all
delete_all-IsSound [] removed s i = i
delete_all-IsSound (key ∷ keys) removed s i =
    let a = delete_file key s in
    let j = delete_file-IsSound key s i in
    elim (Result-cases a) [
      | inl (_, h) ↦ rw (delete_all, h) (delete_all-IsSound keys (removed + 1) a.1 j)
      | inr (_, h) ↦ rw (delete_all, h) (delete_all-IsSound keys removed a.1 j)
    ]

remove_indexed-IsQuiet : (index : Map Bytes ChunkLoc) → IsQuiet (remove_indexed index)
unfolding remove_indexed remove_location
remove_indexed-IsQuiet [] s = (refl, refl, λ h. h)
remove_indexed-IsQuiet ((key, loc) ∷ index) s =
    elim (Option-cases (indexed_reference loc s.files)) [
      | inl n ↦ ground (arith, n, remove_indexed-IsQuiet index s)
      | inr (ref, e) ↦ ground (
        arith,
        e,
        remove_if_present-IsQuiet ref.location s,
        remove_indexed-IsQuiet index (remove_if_present ref.location s).1,
      )
    ]

remove_chunk_files-IsQuiet :
    (dir : FilePath) (names : List Bytes) → IsQuiet (remove_chunk_files dir names)
unfolding remove_chunk_files
remove_chunk_files-IsQuiet dir [] s = (refl, refl, λ h. h)
remove_chunk_files-IsQuiet dir (name ∷ names) s =
    let path = dir ++ name ∷ [] in
    ground (
      arith,
      remove_if_present-IsQuiet path s,
      remove_chunk_files-IsQuiet dir names s,
      remove_chunk_files-IsQuiet dir names (remove_if_present path s).1,
    )

pub forgotten_all-IsSound :
    (t : Store) → t.faults ≡ [] → t.files ≡ [] → t.files_by_name ≡ [] → IsSound t
unfolding lookup
forgotten_all-IsSound t f files names = record {
  faultless = f;
  keyed = rw files (λ hash file h. absurd (ground (arith, h)));
  named = rw (files, names) (λ name hash h. absurd (ground (arith, h)));
}

pub cleanup-IsSound : (s : Store) → IsSound s → IsSound (cleanup s).1
unfolding cleanup forget
cleanup-IsSound s i =
    let a = remove_indexed s.chunk_index s in
    let same_a = remove_indexed-IsQuiet s.chunk_index s in
    let fa = same_a.2 i.faultless in
    let dir = chunk_data_dir a.1.config in
    let names = file_names dir a.1.disk in
    let b = remove_chunk_files dir names a.1 in
    let same_b = SameFiles-trans s a.1 b.1 same_a (remove_chunk_files-IsQuiet dir names a.1) in
    let fb = same_b.2 i.faultless in
    elim (Result-cases a) [
      | inr (e, h) ↦
          let q : cleanup s ≡ (err e, a.1) = ground (arith, h) in
          rw q (SameFiles-IsSound s a.1 same_a i)
      | inl (_, h) ↦ elim (Result-cases b) [
        | inr (e, g) ↦
            let q : cleanup s ≡ (err e, b.1) = ground (arith, h, g, system_call_faultless a.1 fa) in
            rw q (SameFiles-IsSound s b.1 same_b i)
        | inl (_, g) ↦
            let t = (cleanup s).1 in
            forgotten_all-IsSound t
              (ground (arith, h, g, system_call_faultless a.1 fa, system_call_faultless b.1 fb, fb))
              (ground (arith, h, g, system_call_faultless a.1 fa, system_call_faultless b.1 fb))
              (ground (arith, h, g, system_call_faultless a.1 fa, system_call_faultless b.1 fb))
      ]
    ]
