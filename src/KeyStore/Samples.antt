-- ===== src/KeyStore/Samples.antt =====
-- Stores and files that the tests run on.
use dps_files.Prelude.{
  ◌≡◌, some, ◌++◌, true, Bytes, refl, ◌∷◌, [], list_eq, nat_eq, arith, text, none, false,
}
use dps_files.KeyStore.Types.{FilePath, File, FileReference, KeyStoreConfig, Platform, Store}
use dps_files.KeyStore.RoundTrip.Laws.{CanStore}
use dps_files.KeyStore.Cache.{file_names, ensure_hash_not_cached}
use dps_files.KeyStore.Exec.{system_call}
use dps_files.Prelude.Map.{lookup}
use dps_files.KeyStore.BlockSize.{
  nearest_power, calculate_block_size, count_blocks, prepare_meta_data,
}
use dps_files.KeyStore.Files.{base_name, local_meta_data}

-- Hash functions that are easy to follow, and codecs that nothing here decodes.
abbrev pub plain : Platform
plain = record {
  sha256 = λ bytes. bytes;
  sha1 = λ bytes. bytes;
  encode_file = λ file. file.meta_data.file_name;
  decode_file = λ bytes. none;
  encode_intent = λ rec. rec.file_name;
  decode_intent = λ bytes. none;
}

abbrev pub config : KeyStoreConfig
config = record {
  storage_dir = text "store" ∷ [];
  verify_on_write = true;
  verbose = false;
  default_ttl_seconds = 60;
}

abbrev pub empty : Store
empty = record {
  config = config;
  chunk_index = [];
  files = [];
  files_by_name = [];
  disk = [];
  clock = 5;
  faults = [];
}

abbrev pub hello : Bytes
hello = text "hello"

pub hello-CanStore : CanStore plain (text "a.txt") hello empty
unfolding local_meta_data prepare_meta_data count_blocks calculate_block_size nearest_power
    ensure_hash_not_cached lookup system_call file_names
hello-CanStore = record {
  faultless = refl;
  unknown = refl;
  uncached = refl;
  fits = omega arith;
  distinct = λ i j a b e. omega arith;
  lives = omega arith;
}

-- The store that holds the file, by the constructors of its parts.
abbrev pub hello_key : Bytes
hello_key = hello ++ 0 ∷ 0 ∷ 0 ∷ 0 ∷ 0 ∷ 0 ∷ 0 ∷ 0 ∷ []

abbrev pub hello_reference : FileReference
hello_reference = record {
  key = hello_key;
  file_name = text "a.txt";
  size = 5;
  file_index = 0;
  location = text "store" ∷ text "chunk" ∷ [];
  protocol = text "file";
  data_hash = hello;
  parent = hello;
}

abbrev pub hello_file : File
hello_file = record {
  meta_data = record {
    file_hash = hello;
    total_size = 5;
    file_name = text "a.txt";
    modified = 5;
    permissions = 420;
    signature = [];
    ttl = 60;
    block_size = 5;
    total_blocks = 1;
  };
  references = some hello_reference ∷ [];
}

abbrev pub hello_stored : Store
hello_stored = record {
  config = config;
  chunk_index = (hello_key, record { file_hash = hello; chunk_index = 0 }) ∷ [];
  files = (hello, hello_file) ∷ [];
  files_by_name = (text "a.txt", hello) ∷ [];
  disk = (text "store" ∷ text "chunk" ∷ [], hello) ∷ [];
  clock = 5;
  faults = [];
}

-- A key store that holds nothing, beside a file to store.
abbrev pub source_path : FilePath
source_path = text "in" ∷ text "a.txt" ∷ []

abbrev pub source : Store
source = record empty { disk = (source_path, hello) ∷ [] }

pub source-CanStore : CanStore plain (base_name plain source_path) hello source
unfolding local_meta_data prepare_meta_data count_blocks calculate_block_size nearest_power
    ensure_hash_not_cached lookup system_call file_names base_name list_eq nat_eq
source-CanStore = record {
  faultless = refl;
  unknown = refl;
  uncached = refl;
  fits = omega arith;
  distinct = λ i j a b e. omega arith;
  lives = omega arith;
}

pub source-lookup : lookup source_path source.disk ≡ some hello
unfolding lookup list_eq nat_eq
source-lookup = refl
