-- ===== src/KeyStore/Types.antt =====
-- The data model of src/key_store: metadata.go, file_reference.go, files.go, config.go, intent.go
-- and the `KeyStore` struct of key_store.go, with the disk that it works on.
pub mod Paths
use dps_files.Prelude.{ℕ, ◌*◌, ◌^◌, ◌%◌, Bool, Option, List, ◌∷◌, [], ◌++◌, Bytes, text, hex_encode}
use dps_files.Prelude.Map.{Map}

abbrev pub key_size : ℕ
key_size = 20

abbrev pub hash_size : ℕ
hash_size = 32

abbrev pub min_block_size : ℕ
min_block_size = 2 ^ 16

abbrev pub max_block_size : ℕ
max_block_size = 2 ^ 22

abbrev pub target_blocks : ℕ
target_blocks = 1000

abbrev pub large_file_mx : ℕ
large_file_mx = 128

abbrev pub default_file_ttl_seconds : ℕ
default_file_ttl_seconds = 24 * 60 * 60

-- R_USER | W_USER | R_GROUP | R_OTHER
abbrev pub default_permissions : ℕ
default_permissions = 0o644

-- the conversion `uint32(n)`
abbrev pub uint32 : ℕ → ℕ
uint32 n = n % 2 ^ 32

-- A cleaned path is the list of its components; the empty text is `[]`.
abbrev pub FilePath : Type 0
FilePath = List Bytes

pub record MetaData : Type 0 where
  pub file_hash : Bytes
  pub total_size : ℕ
  pub file_name : Bytes
  pub modified : ℕ
  pub permissions : ℕ
  pub signature : Bytes
  pub ttl : ℕ
  pub block_size : ℕ
  pub total_blocks : ℕ

pub record FileReference : Type 0 where
  pub key : Bytes
  pub file_name : Bytes
  pub size : ℕ
  pub file_index : ℕ
  pub location : FilePath
  pub protocol : Bytes
  pub data_hash : Bytes
  pub parent : Bytes

-- `none` is a nil pointer among the references.
pub record File : Type 0 where
  pub meta_data : MetaData
  pub references : List (Option FileReference)

pub record ChunkLoc : Type 0 where
  pub file_hash : Bytes
  pub chunk_index : ℕ

pub record IntentRecord : Type 0 where
  pub file_hash : Bytes
  pub file_name : Bytes
  pub total_blocks : ℕ
  pub block_size : ℕ
  pub started_at : ℕ

pub record KeyStoreConfig : Type 0 where
  pub storage_dir : FilePath
  pub verify_on_write : Bool
  pub verbose : Bool
  pub default_ttl_seconds : ℕ

-- What a call of the operating system that fails has done: nothing, or (a write) the first bytes.
pub data Fault : Type 0 where
  refused : Fault
  cut_at : ℕ → Fault

-- The `KeyStore`, the disk, the time in nanoseconds, and what the next calls of the operating
-- system will meet: `none` is success, and so is every call after the end of the list.
pub record Store : Type 0 where
  pub config : KeyStoreConfig
  pub chunk_index : Map Bytes ChunkLoc
  pub files : Map Bytes File
  pub files_by_name : Map Bytes Bytes
  pub disk : Map FilePath Bytes
  pub clock : ℕ
  pub faults : List (Option Fault)

-- The hash functions, and the codecs for metadata (TOML) and intents (JSON).
pub record Platform : Type 0 where
  pub sha256 : Bytes → Bytes
  pub sha1 : Bytes → Bytes
  pub encode_file : File → Bytes
  pub decode_file : Bytes → Option File
  pub encode_intent : IntentRecord → Bytes
  pub decode_intent : Bytes → Option IntentRecord

unfoldable pub chunk_data_dir : KeyStoreConfig → FilePath
chunk_data_dir c = c.storage_dir ++ (text "data" ∷ [])

-- `filepath.Join(ks.chunkDataDir(), fmt.Sprintf("%x%s", id, FileExtension))`
unfoldable pub get_local_block_location : KeyStoreConfig → Bytes → FilePath
unfolding chunk_data_dir
get_local_block_location c key = chunk_data_dir c ++ (hex_encode key ++ text ".kdht") ∷ []

unfoldable pub metadata_path : KeyStoreConfig → Bytes → FilePath
metadata_path c hash = c.storage_dir ++ text "metadata" ∷ (hex_encode hash ++ text ".toml") ∷ []

unfoldable pub cache_path_for_hash : KeyStoreConfig → Bytes → FilePath
cache_path_for_hash c hash = c.storage_dir ++ text ".cache" ∷ (hex_encode hash ++ text ".toml") ∷ []

unfoldable pub intent_path : KeyStoreConfig → Bytes → FilePath
intent_path c hash = c.storage_dir ++ text ".intents" ∷ (hex_encode hash ++ text ".json") ∷ []
