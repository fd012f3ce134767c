-- ===== src/KeyStore/Naming/Steps.antt =====
-- The methods of KeyStore as steps (key_store.go, files.go): what holds of every store they lead to.
use dps_files.KeyStore.Cleaning.{cleanup_extensions, cleanup}
use dps_files.Prelude.{List, list_eq, nat_eq, refl, ℕ, ◌≡◌, []}
use dps_files.KeyStore.Chunk.{store_file_reference, delete_file_reference}
use dps_files.KeyStore.Naming.Extensions.{cleanup_extensions-IsSound}
use dps_files.KeyStore.Naming.Quiet.{store_file_reference-IsQuiet}
use dps_files.KeyStore.Types.{FileReference, Store, Platform, File, FilePath}
use dps_files.KeyStore.Naming.Remote.{load_and_store_file_remote-IsSound}
use dps_files.KeyStore.Remote.{load_and_store_file_remote, RemoteHandler}
use dps_files.KeyStore.Naming.Storing.{Returns-IsSound, delete_file_reference-IsSound}
use dps_files.KeyStore.Naming.Removal.{
  cleanup-IsSound, delete_all-IsSound, delete_file-IsSound, forgotten_all-IsSound,
}
use dps_files.KeyStore.Naming.Receiving.{store_from_reader-IsSound}
use dps_files.KeyStore.Exec.{Result, ok}
use dps_files.KeyStore.Files.{
  store_file_local, load_and_store_file_local, store_from_reader, delete_file, cleanup_expired,
  expired_keys,
}
use dps_files.KeyStore.Naming.{
  subst, inr, Bool-cases, inl, Option-cases, Bytes, arith, IsSound, SameFiles-IsSound,
}
use dps_files.Prelude.Map.{lookup}
use dps_files.KeyStore.Naming.Methods.{store_file_local-Returns, load_and_store_file_local-Returns}
use dps_files.KeyStore.Index.{is_expired, get_file_by_name, get_file_by_hash, file_from_memory}

-- A step of a key store: a method that changes it, or the passing of time. ReloadLocalState,
-- LoadLocalFileToMemory and LoadAllLocalFilesToMemory are no steps: they enter in the maps whatever the
-- metadata on the disk says.
pub data Step (P : Platform) (s : Store) : Store → Type 1 where
  stored : (random name bytes : Bytes) → Step P s (store_file_local P random name bytes s).1
  loaded :
      (random : Bytes) (permissions : ℕ) (path : FilePath)
      → Step P s (load_and_store_file_local P random permissions path s).1
  handed_over :
      {H : Type 0} (R : RemoteHandler H) (random : Bytes) (permissions : ℕ) (path : FilePath)
      (h : H)
      → Step P s (load_and_store_file_remote P R random permissions path h s).1
  received :
      (random tmp_random : Bytes) (permissions : ℕ) (name : Bytes) (from : Result Bytes) (size : ℕ)
      → Step P s (store_from_reader P random tmp_random permissions name from size s).1
  referenced :
      (ref : FileReference) (bytes : Bytes) → Step P s (store_file_reference P ref bytes s).1
  unreferenced : (key : Bytes) → Step P s (delete_file_reference key s).1
  deleted : (key : Bytes) → Step P s (delete_file key s).1
  swept : Step P s (cleanup_expired s).1
  emptied : Step P s (cleanup s).1
  emptied_of : (extensions : List Bytes) → Step P s (cleanup_extensions extensions s).1
  passed : (now : ℕ) → Step P s (record s { clock = now })

pub data Reach (P : Platform) (s : Store) : Store → Type 1 where
  here : Reach P s s
  next : {t u : Store} → Reach P s t → Step P t u → Reach P s u

Step-IsSound : (P : Platform) {s t : Store} → Step P s t → IsSound s → IsSound t
unfolding cleanup_expired
Step-IsSound P {s} (stored random name bytes) i =
    let r = store_file_local P random name bytes s in
    Returns-IsSound r.0 r.1 (store_file_local-Returns P random name bytes s i)
Step-IsSound P {s} (loaded random permissions path) i =
    let r = load_and_store_file_local P random permissions path s in
    Returns-IsSound r.0 r.1 (load_and_store_file_local-Returns P random permissions path s i)
Step-IsSound P {s} (received random tmp_random permissions name from size) i =
    store_from_reader-IsSound P random tmp_random permissions name from size s i
Step-IsSound P {s} (handed_over R random permissions path h) i =
    load_and_store_file_remote-IsSound P R random permissions path h s i
Step-IsSound P {s} (referenced ref bytes) i =
    SameFiles-IsSound s _ (store_file_reference-IsQuiet P ref bytes s) i
Step-IsSound P {s} (emptied_of extensions) i = cleanup_extensions-IsSound extensions s i
Step-IsSound P {s} (deleted key) i = delete_file-IsSound key s i
Step-IsSound P {s} (unreferenced key) i = delete_file_reference-IsSound key s i
Step-IsSound P {s} swept i = delete_all-IsSound (expired_keys s.clock s.files) 0 s i
Step-IsSound P {s} emptied i = cleanup-IsSound s i
Step-IsSound P {s} (passed now) i = SameFiles-IsSound s _ (refl, refl, λ h. h) i

Reach-IsSound : (P : Platform) {s t : Store} → IsSound s → Reach P s t → IsSound t
Reach-IsSound P i here = i
Reach-IsSound P i (next r st) = Step-IsSound P st (Reach-IsSound P i r)

-- Nothing is known, and no call fails.
abbrev pub IsFresh : Store → Type 0
IsFresh s = (s.faults ≡ []) × (s.files ≡ []) × (s.files_by_name ≡ [])

fresh-IsSound : (s : Store) → IsFresh s → IsSound s
fresh-IsSound s (f, files, names) = forgotten_all-IsSound s f files names

-- Take a key store that knows no file, on which any sequence of these has run, without a failing
-- call of the operating system: StoreFileLocal, LoadAndStoreFileLocal, LoadAndStoreFileRemote,
-- StoreFromReader, StoreFileReference, DeleteFileReference, DeleteFile, CleanupExpired, Cleanup,
-- CleanupExtensions (so CleanupKDHT and CleanupMetaData) and the passing of time. A file that
-- GetFileByName then returns has the name asked for, and GetFileByHash returns the same file for the
-- file's own hash.
pub get_file_by_name-Reach :
    (P : Platform) {s t : Store} (name : Bytes) (file : File)
    → IsFresh s
    → Reach P s t
    → (get_file_by_name name t).0 ≡ ok file
    → (file.meta_data.file_name ≡ name)
      × (get_file_by_hash file.meta_data.file_hash t ≡ (ok file, t))
unfolding get_file_by_name get_file_by_hash file_from_memory
get_file_by_name-Reach P {s} {t} name file fresh r h =
    let i = Reach-IsSound P (fresh-IsSound s fresh) r in
    elim (Option-cases (lookup name t.files_by_name)) [
      | inl e ↦ absurd (ground (arith, e, h))
      | inr (hash, e) ↦
          let (known, there, called) = i.named name hash e in
          let same : known ≡ file = ground (arith, e, there, h) in
          let keyed = i.keyed hash known there in
          elim (Bool-cases (is_expired t.clock known)) [
            | inl x ↦ absurd (ground (arith, e, there, x, h))
            | inr x ↦
                let q : get_file_by_hash known.meta_data.file_hash t ≡ (ok known, t) =
                  ground (arith, keyed, there, x) in
                subst
                  (λ f.
                    (f.meta_data.file_name ≡ name)
                    × (get_file_by_hash f.meta_data.file_hash t ≡ (ok f, t)))
                  same (called, q)
          ]
    ]
