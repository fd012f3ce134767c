-- ===== src/KeyStore/Cleaning/Laws.antt =====
-- The indexes after Cleanup of key_store.go.
use dps_files.KeyStore.Cleaning.{
  file_names, Exec, chunk_data_dir, indexed_reference, remove_location, remove_indexed,
  remove_chunk_files, cleanup, forget,
}
use dps_files.KeyStore.Exec.{◌>>◌, ok, err, Result, remove_if_present, system_call}
use dps_files.Prelude.{
  ap, Option-cases, ◌≡◌, ◌∙◌, refl, inl, inr, List, [], ◌∷◌, ◌++◌, Bytes, arith,
}
use dps_files.Prelude.Map.{Map}
use dps_files.KeyStore.Types.{Store, FilePath, ChunkLoc}
use dps_files.KeyStore.Exec.Memory.{
  memory, remove_if_present-memory, system_call-memory, Result-cases,
}

remove_indexed-memory :
    (index : Map Bytes ChunkLoc) (s : Store) → memory (remove_indexed index s).1 ≡ memory s
unfolding remove_indexed remove_location
remove_indexed-memory [] s = refl
remove_indexed-memory ((key, loc) ∷ index) s = elim (Option-cases (indexed_reference loc s.files)) [
  | inl n ↦ ground (arith, n, remove_indexed-memory index s)
  | inr (ref, e) ↦
      let t = (remove_if_present ref.location s).1 in
      ground (arith, e, remove_if_present-memory ref.location s, remove_indexed-memory index t)
]

remove_chunk_files-memory :
    (dir : FilePath) (names : List Bytes) (s : Store)
    → memory (remove_chunk_files dir names s).1 ≡ memory s
unfolding remove_chunk_files
remove_chunk_files-memory dir [] s = refl
remove_chunk_files-memory dir (name ∷ names) s =
    let path = dir ++ name ∷ [] in
    let t = (remove_if_present path s).1 in
    ground (
      arith,
      remove_if_present-memory path s,
      remove_chunk_files-memory dir names s,
      remove_chunk_files-memory dir names t,
    )

-- The three indexes after Cleanup, by what it reports.
abbrev pub Cleaned : Store → Result (Unit {0}) → Store → Type 0
Cleaned s (ok _) t = memory t ≡ memory (forget s)
Cleaned s (err _) t = memory t ≡ memory s

Cleaned-from :
    (s t u : Store) (r : Result (Unit {0})) → memory t ≡ memory s → Cleaned t r u → Cleaned s r u
unfolding forget
Cleaned-from s t u (ok a) e c = c ∙ ap forget e
Cleaned-from s t u (err a) e c = c ∙ e

-- A step that keeps the memory, before a cleanup.
Cleaned-then :
    (m n : Exec (Unit {0})) (s : Store)
    → memory (m s).1 ≡ memory s
    → (let t = (m s).1 in let r = n t in Cleaned t r.0 r.1)
    → let r = (m >> n) s in Cleaned s r.0 r.1
Cleaned-then m n s e c = elim (Result-cases (m s)) [
  | inr (f, h) ↦ rw h e
  | inl (a, h) ↦ rw h (Cleaned-from s (m s).1 _ _ e c)
]

-- Cleanup empties the three indexes, all or none: when it reports no error they are empty, and when one of
-- its calls fails they are as before. The rest of the memory stays.
pub cleanup-Cleaned : (s : Store) → let r = cleanup s in Cleaned s r.0 r.1
unfolding cleanup forget
cleanup-Cleaned s =
    let a = (remove_indexed s.chunk_index s).1 in
    let b = (system_call a).1 in
    let dir = chunk_data_dir a.config in
    let names = file_names dir b.disk in
    let c = (remove_chunk_files dir names b).1 in
    Cleaned-then (remove_indexed s.chunk_index) _ s (remove_indexed-memory s.chunk_index s) (
      Cleaned-then system_call _ a (system_call-memory a) (
        Cleaned-then (remove_chunk_files dir names) _ b (remove_chunk_files-memory dir names b)
          (Cleaned-then system_call _ c (system_call-memory c) refl)))
