-- ===== src/KeyStore/Start/Loading.antt =====
-- The metadata files that InitKeyStoreWithConfig of key_store.go loads.
use dps_files.Prelude.{
  trim_suffix-append, ◌≡◌, refl, ap, none, some, Option, List, [], ◌∷◌, ◌++◌, Bytes, text, length,
  arith, AreBytes, hex_encode, hex_decode-hex_encode, take-append_at, list_eq, nat_eq,
}
use mathlib.Core.List.{append_assoc}
use dps_files.KeyStore.Start.{replicate, to_hash, enter, enter_read, relocate, load_entry}
use dps_files.Prelude.Map.{lookup}
use dps_files.KeyStore.Types.{
  Store, Platform, File, FileReference, KeyStoreConfig, get_local_block_location, metadata_path,
}
use dps_files.KeyStore.Exec.{ok, read_file, system_call}
use dps_files.KeyStore.Index.{track}

-- Every reference names the place where its chunk is kept.
abbrev pub AllLocated : KeyStoreConfig → List (Option FileReference) → Type 0
AllLocated c [] = Unit {0}
AllLocated c (none ∷ refs) = AllLocated c refs
AllLocated c (some ref ∷ refs) =
    (ref.location ≡ get_local_block_location c ref.key) × AllLocated c refs

relocate_located :
    (c : KeyStoreConfig) (refs : List (Option FileReference))
    → AllLocated c refs
    → relocate c refs ≡ refs
unfolding relocate
relocate_located c [] h = refl
relocate_located c (none ∷ refs) h = ap (λ rs. none ∷ rs) (relocate_located c refs h)
relocate_located c (some ref ∷ refs) (e, h) = ground (arith, e, relocate_located c refs h)

-- InitKeyStoreWithConfig enters a metadata file just as fileToMemory entered the file that it was written
-- from: when the calls of the operating system do not fail, the hash is one of 32 bytes, the file at
-- its metadata path decodes to the file, and its references name the places where their chunks are kept.
pub load_entry-track :
    (P : Platform) (file : File) (bytes : Bytes) (s : Store)
    → s.faults ≡ []
    → length file.meta_data.file_hash ≡ 32
    → AreBytes file.meta_data.file_hash
    → lookup (metadata_path s.config file.meta_data.file_hash) s.disk ≡ some bytes
    → P.decode_file bytes ≡ some file
    → AllLocated s.config file.references
    → load_entry P (hex_encode file.meta_data.file_hash ++ text ".toml") s ≡ (ok tt, track file s)
unfolding load_entry enter_read enter to_hash track read_file system_call metadata_path
load_entry-track P file bytes s f n b there d l =
    let hash = file.meta_data.file_hash in
    ground (
      arith,
      f,
      trim_suffix-append (hex_encode hash) (text ".toml"),
      hex_decode-hex_encode hash b,
      take-append_at 32 hash (replicate 32 0) (omega arith),
      there,
      append_assoc s.config.storage_dir (text "metadata" ∷ [])
          ((hex_encode hash ++ text ".toml") ∷ []),
      d,
      relocate_located s.config file.references l,
    )
