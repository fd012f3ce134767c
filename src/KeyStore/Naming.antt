-- ===== src/KeyStore/Naming.antt =====
-- The maps from hashes and from names to files (key_store.go): what they owe to each other.
pub mod Quiet
pub mod Storing
pub mod Methods
pub mod Removal
pub mod Receiving
pub mod Extensions
pub mod Remote
pub mod Steps
use dps_files.KeyStore.Exec.{Exec, Error, ok, err, ◌>>=◌}
use dps_files.KeyStore.Exec.Memory.{Result-cases}
use dps_files.Prelude.{
  set, false, Option, none, some, [], ◌∷◌, Bytes, ◌≡◌, ◌≢◌, ◌⊎◌, inl, inr, refl, ◌∙◌, sym, ap,
  subst, arith, ◌==◌, ==→eq, ==_refl, Bool-cases, list_eq, nat_eq, Option-cases,
}
use dps_files.Prelude.Map.{
  Map, lookup, insert, erase, lookup-insert, lookup-erase, lookup-insert_self, lookup-insert_ne,
  lookup-erase_ne,
}
use dps_files.KeyStore.Types.{Store, File, ChunkLoc}
use dps_files.KeyStore.Index.{track}
use dps_files.KeyStore.Chunk.{clear_slot}
use dps_files.KeyStore.Exec.Quiet.{SameFiles}

-- Every file is known under its hash.
abbrev pub IsKeyed : Map Bytes File → Type 0
IsKeyed files =
    (hash : Bytes) (file : File) → lookup hash files ≡ some file → file.meta_data.file_hash ≡ hash

-- A name leads to a file that is known and has this name.
abbrev pub IsNamed : Map Bytes File → Map Bytes Bytes → Type 0
IsNamed files names =
    (name hash : Bytes)
    → lookup name names ≡ some hash
    → (file : File) × (lookup hash files ≡ some file) × (file.meta_data.file_name ≡ name)

-- A file may be entered without taking a name from the file of its hash: there is none, or it has the
-- same name.
abbrev pub IsFree : File → Map Bytes File → Type 0
IsFree file files =
    (old : File)
    → lookup file.meta_data.file_hash files ≡ some old
    → old.meta_data.file_name ≡ file.meta_data.file_name

IsKeyed-insert :
    (file : File) (files : Map Bytes File)
    → IsKeyed files
    → IsKeyed (insert file.meta_data.file_hash file files)
IsKeyed-insert file files k hash f h = ground (
  arith,
  lookup-insert hash file.meta_data.file_hash file files,
  k hash f,
  ==→eq file.meta_data.file_hash hash,
)

IsKeyed-erase : (key : Bytes) (files : Map Bytes File) → IsKeyed files → IsKeyed (erase key files)
IsKeyed-erase key files k hash f h = ground (arith, lookup-erase hash key files, k hash f)

IsNamed-insert :
    (file : File) (files : Map Bytes File) (names : Map Bytes Bytes)
    → IsFree file files
    → IsNamed files names
    → IsNamed
        (insert file.meta_data.file_hash file files)
        (insert file.meta_data.file_name file.meta_data.file_hash names)
IsNamed-insert file files names free n name hash h =
    let key = file.meta_data.file_hash in
    elim (Bool-cases (file.meta_data.file_name == name)) [
      | inl e ↦
          let same = ==→eq file.meta_data.file_name name e in
          let at : key ≡ hash =
            ground (arith, lookup-insert name file.meta_data.file_name key names, e, h) in
          (
            file,
            subst (λ k. lookup k (insert key file files) ≡ some file) at
                (lookup-insert_self key file files),
            same,
          )
      | inr e ↦
          let old_name : lookup name names ≡ some hash =
            ground (arith, lookup-insert name file.meta_data.file_name key names, e, h) in
          let (old, there, called) = n name hash old_name in
          (
            old,
            ground (
              arith,
              lookup-insert hash key file files,
              there,
              called,
              e,
              free old,
              ==→eq key hash,
              ==_refl name,
            ),
            called,
          )
    ]

IsNamed-erase :
    (key : Bytes) (file : File) (files : Map Bytes File) (names : Map Bytes Bytes)
    → lookup key files ≡ some file
    → IsNamed files names
    → IsNamed (erase key files) (erase file.meta_data.file_name names)
IsNamed-erase key file files names known n name hash h =
    let old_name : (lookup name names ≡ some hash) × ((file.meta_data.file_name == name) ≡ false) =
      ground (arith, lookup-erase name file.meta_data.file_name names, h) in
    let (old, there, called) = n name hash old_name.0 in
    (
      old,
      ground (
        arith,
        lookup-erase hash key files,
        there,
        called,
        old_name.1,
        known,
        ==→eq key hash,
        ==_refl name,
      ),
      called,
    )

-- What holds of a key store whose calls do not fail.
pub record IsSound (s : Store) : Type 0 where
  pub faultless : s.faults ≡ []
  pub keyed : IsKeyed s.files
  pub named : IsNamed s.files s.files_by_name

pub SameFiles-IsSound : (s t : Store) → SameFiles s t → IsSound s → IsSound t
SameFiles-IsSound s t (files, names, quiet) i = record {
  faultless = quiet i.faultless;
  keyed = rw files i.keyed;
  named = rw (files, names) i.named;
}

pub track-IsSound :
    (file : File) (s : Store) → IsFree file s.files → IsSound s → IsSound (track file s)
unfolding track
track-IsSound file s free i = record {
  faultless = i.faultless;
  keyed = IsKeyed-insert file s.files i.keyed;
  named = IsNamed-insert file s.files s.files_by_name free i.named;
}

-- The store without a known file, its chunks apart.
pub forgotten-IsSound :
    (key : Bytes) (file : File) (s t : Store)
    → lookup key s.files ≡ some file
    → IsSound s
    → t.files ≡ erase key s.files
    → t.files_by_name ≡ erase file.meta_data.file_name s.files_by_name
    → t.faults ≡ []
    → IsSound t
forgotten-IsSound key file s t known i files names quiet = record {
  faultless = quiet;
  keyed = rw files (IsKeyed-erase key s.files i.keyed);
  named = rw (files, names) (IsNamed-erase key file s.files s.files_by_name known i.named);
}

-- Another list of references in the place of a file's changes no name and no hash.
IsNamed-references :
    (key : Bytes) (old file : File) (files : Map Bytes File) (names : Map Bytes Bytes)
    → lookup key files ≡ some old
    → file.meta_data ≡ old.meta_data
    → IsNamed files names
    → IsNamed (insert key file files) names
IsNamed-references key old file files names known same n name hash h =
    let (f, there, called) = n name hash h in
    elim (Bool-cases (key == hash)) [
      | inl e ↦ (
        file,
        ground (arith, lookup-insert hash key file files, e),
        ground (arith, same, known, there, called, ==→eq key hash e),
      )
      | inr e ↦ (f, ground (arith, lookup-insert hash key file files, e, there), called)
    ]

IsKeyed-references :
    (key : Bytes) (old file : File) (files : Map Bytes File)
    → lookup key files ≡ some old
    → file.meta_data ≡ old.meta_data
    → IsKeyed files
    → IsKeyed (insert key file files)
IsKeyed-references key old file files known same k hash f h = ground (
  arith,
  lookup-insert hash key file files,
  same,
  known,
  k key old known,
  k hash f,
  ==→eq key hash,
)

pub clear_slot-IsSound : (loc : ChunkLoc) (s : Store) → IsSound s → IsSound (clear_slot loc s)
unfolding clear_slot
clear_slot-IsSound loc s i = elim (Option-cases (lookup loc.file_hash s.files)) [
  | inl e ↦ rw (clear_slot, e) i
  | inr (file, e) ↦
      let cleared = record file { references = set file.references loc.chunk_index none } in
      rw (clear_slot, e)
        (record {
          faultless = i.faultless;
          keyed = IsKeyed-references loc.file_hash file cleared s.files e refl i.keyed;
          named =
              IsNamed-references loc.file_hash file cleared s.files s.files_by_name e refl i.named;
        })
]

-- The effect of a sequence on what holds of the store.
pub bind-keeps :
    {A B : Type 0} (I : Store → Type 0) (m : Exec A) (f : A → Exec B) (s : Store)
    → ((e : Error) → (m s).0 ≡ err e → I (m s).1)
    → ((a : A) → (m s).0 ≡ ok a → I (f a (m s).1).1)
    → I ((m >>= f) s).1
bind-keeps I m f s stop go = elim (Result-cases (m s)) [
  | inl (a, h) ↦ rw h (go a h)
  | inr (e, h) ↦ rw h (stop e h)
]
