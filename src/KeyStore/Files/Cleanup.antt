-- ===== src/KeyStore/Files/Cleanup.antt =====
-- CleanupExpired of key_store.go.
use dps_files.Prelude.{
  inr, inl, Bool-cases, ◌+◌, contains, ==→eq, list_eq, nat_eq, ℕ, ◌≡◌, refl, ◌∙◌, none, some, List,
  [], ◌∷◌, Bytes, arith,
}
use dps_files.KeyStore.Files.Frame.{delete_all-IsKept, IsElsewhere}
use dps_files.KeyStore.Files.{
  FilePath, true, false, is_expired, cleanup_expired, expired_keys, Map, delete_all, delete_file,
}
use dps_files.KeyStore.Types.{Store, File}
use dps_files.Prelude.Map.{lookup}
use dps_files.KeyStore.Files.Deletion.{delete_file-others}

delete_all-others :
    (keys : List Bytes) (removed : ℕ) (other : Bytes) (s : Store)
    → contains other keys ≡ false
    → lookup other (delete_all keys removed s).1.files ≡ lookup other s.files
unfolding delete_all contains
delete_all-others [] removed other s n = refl
delete_all-others (key ∷ keys) removed other s n =
    let t = (delete_file key s).1 in
    ground (
      arith,
      delete_file-others key other s,
      delete_all-others keys removed other t,
      delete_all-others keys (removed + 1) other t,
    )

-- No key stands twice, as in any Go map.
abbrev pub IsMap : Map Bytes File → Type 0
IsMap [] = Unit {0}
IsMap ((key, file) ∷ files) = (lookup key files ≡ none) × IsMap files

contains-expired_keys_absent :
    (now : ℕ) (key : Bytes) (files : Map Bytes File)
    → lookup key files ≡ none
    → contains key (expired_keys now files) ≡ false
unfolding expired_keys contains lookup
contains-expired_keys_absent now key [] h = refl
contains-expired_keys_absent now key ((other, file) ∷ files) h =
    ground (arith, contains-expired_keys_absent now key files)

contains-expired_keys :
    (now : ℕ) (key : Bytes) (file : File) (files : Map Bytes File)
    → IsMap files
    → lookup key files ≡ some file
    → is_expired now file ≡ false
    → contains key (expired_keys now files) ≡ false
unfolding expired_keys contains lookup
contains-expired_keys now key file [] m h e = absurd (ground arith)
contains-expired_keys now key file ((other, f) ∷ files) (unique, m) h e = ground (
  arith,
  unique,
  contains-expired_keys now key file files m,
  contains-expired_keys_absent now key files,
  ==→eq other key,
)

-- Of a map, only what has expired is swept.
swept-IsExpired :
    (now : ℕ) (key : Bytes) (file : File) (files : Map Bytes File)
    → IsMap files
    → contains key (expired_keys now files) ≡ true
    → lookup key files ≡ some file
    → is_expired now file ≡ true
swept-IsExpired now key file files m h e = elim (Bool-cases (is_expired now file)) [
  | inl x ↦ x
  | inr x ↦ absurd (ground (arith, h, contains-expired_keys now key file files m e x))
]

-- CleanupExpired touches nothing but expired files, whatever the calls of the operating system do. A
-- file that has not expired stays listed under its hash. Take a path, a chunk key and a name such that,
-- for each expired file, the path is neither that of its metadata nor the location of one of its
-- chunks, the key is not that of one of its chunks, and the name is not its name: then the path holds
-- what it held, the key is indexed as it was, and the name leads where it led.
pub cleanup_expired-keeps :
    (key : Bytes) (file : File) (path : FilePath) (chunk name : Bytes) (s : Store)
    → IsMap s.files
    → lookup key s.files ≡ some file
    → is_expired s.clock file ≡ false
    → ((k : Bytes) (other : File)
        → lookup k s.files ≡ some other
        → is_expired s.clock other ≡ true
        → IsElsewhere path chunk name s.config k other)
    → let t = (cleanup_expired s).1 in
      (lookup key t.files ≡ some file)
      × (lookup path t.disk ≡ lookup path s.disk)
      × (lookup chunk t.chunk_index ≡ lookup chunk s.chunk_index)
      × (lookup name t.files_by_name ≡ lookup name s.files_by_name)
unfolding cleanup_expired
cleanup_expired-keeps key file path chunk name s m h e apart =
    let keys = expired_keys s.clock s.files in
    let listed =
      delete_all-others keys 0 key s (contains-expired_keys s.clock key file s.files m h e) in
    let kept = delete_all-IsKept path chunk name keys 0 s.config s refl (λ k other swept known.
      apart k other known (swept-IsExpired s.clock k other s.files m swept known)) in
    (listed ∙ h, kept.1, kept.2, kept.3)
