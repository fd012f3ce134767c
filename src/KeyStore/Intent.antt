-- ===== src/KeyStore/Intent.antt =====
-- intent.go: the record of a store in progress, and the recovery of stores that did not finish.
pub mod Recovery
use dps_files.Prelude.{
  ℕ, zero, suc, ◌+◌, ◌-◌, ◌*◌, ◌/◌, ◌%◌, ◌^◌, min, max, Bool, true, false, not, ◌&&◌, ◌||◌, Option,
  none, some, List, [], ◌∷◌, ◌++◌, Bytes, length, get_elem?, set, take, drop, replicate, put_le,
  text, eqb, ltb, leb, ◌==◌, list_eq, nat_eq, if◌then◌else◌, hex_encode, hex_decode, has_prefix,
  has_suffix, trim_suffix,
}
use dps_files.Prelude.Map.{lookup, insert, erase, Map}
use dps_files.KeyStore.Types.{
  Store, Platform, File, FileReference, MetaData, ChunkLoc, IntentRecord, FilePath, KeyStoreConfig,
  uint32, get_local_block_location, metadata_path, cache_path_for_hash, intent_path, chunk_data_dir,
  hash_size,
}
use dps_files.KeyStore.Exec.{
  Exec, Result, Error, ok, err, pure, raise, gets, modify, require, attempt, or_raise, when, ◌>>=◌,
  ◌>>◌, system_call, write_file, read_file, stat, remove, remove_if_present, rename, not_found,
  size_mismatch, hash_mismatch, missing_reference, not_exist, expired, cached, invalid_range,
  io_failed, undecodable,
}
use dps_files.KeyStore.Chunk.{compute_chunk_key}
use dps_files.KeyStore.Cache.{file_names}

unfoldable pub intent_dir : KeyStoreConfig → FilePath
intent_dir c = c.storage_dir ++ (text ".intents" ∷ [])

-- parseIntentHash
unfoldable pub parse_intent_hash : Bytes → Option Bytes
parse_intent_hash hash_hex = elim (hex_decode hash_hex) [
  | none ↦ none
  | some decoded ↦ if eqb (length decoded) hash_size then some decoded else none
]

unfoldable pub intent_record : MetaData → IntentRecord
intent_record md = record {
  file_hash = hex_encode md.file_hash;
  file_name = md.file_name;
  total_blocks = md.total_blocks;
  block_size = md.block_size;
  started_at = md.modified;
}

-- clearIntent
unfoldable pub clear_intent : Bytes → Exec (Unit {0})
clear_intent hash = do path ← gets (λ s. intent_path s.config hash); remove_if_present path

-- A deferred removal whose error is dropped.
abbrev drop_temp : FilePath → Result (Unit {0}) → Exec (Unit {0})
drop_temp tmp (ok _) = pure tt
drop_temp tmp (err e) = attempt (remove tmp) >> raise e

-- the loop over the blocks of an intent
unfoldable pub remove_chunks : (ℕ → FilePath) → ℕ → ℕ → Exec (Unit {0})
remove_chunks path zero i = pure tt
remove_chunks path (suc blocks) i = remove_if_present (path i) >> remove_chunks path blocks (suc i)

module _ (P : Platform) where
  -- writeIntent; `random` is what `os.CreateTemp` puts into the name
  unfoldable pub write_intent : Bytes → MetaData → Exec (Unit {0})
  unfolding intent_dir intent_record
  write_intent random md = do
    system_call
    dir ← gets (λ s. intent_dir s.config)
    final ← gets (λ s. intent_path s.config md.file_hash)
    let tmp = dir ++ (hex_encode md.file_hash ++ text "-" ++ random ++ text ".tmp") ∷ []
    write_file tmp []
    r ←
        attempt
          (do write_file tmp (P.encode_intent (intent_record md)); system_call; rename tmp final)
    drop_temp tmp r

  -- recoverIntentFile, once the record is read: `committed` says what `os.Stat` of the metadata said
  unfoldable pub clean_intent : FilePath → IntentRecord → Bytes → Result ℕ → Exec (Unit {0})
  clean_intent path rec hash (ok _) = remove_if_present path
  clean_intent path rec hash (err not_exist) = do
    c ← gets (λ s. s.config)
    remove_chunks (λ i. get_local_block_location c (compute_chunk_key P hash i)) rec.total_blocks 0
    remove_if_present path
  clean_intent path rec hash (err e) = raise e

  unfoldable pub recover_record : FilePath → IntentRecord → Exec (Unit {0})
  unfolding clean_intent parse_intent_hash
  recover_record path rec = elim (parse_intent_hash rec.file_hash) [
    | none ↦ remove_if_present path
    | some hash ↦ do
      md_path ← gets (λ s. metadata_path s.config hash)
      committed ← attempt (stat md_path)
      clean_intent path rec hash committed
  ]

  -- recoverIntentFile
  unfoldable pub recover_intent_file : FilePath → Exec (Unit {0})
  unfolding recover_record
  recover_intent_file path = do
    bytes ← read_file path
    elim (P.decode_intent bytes) [
      | none ↦ remove_if_present path
      | some rec ↦ recover_record path rec
    ]

  -- the loop of recoverIntents, which counts the issues
  unfoldable pub recover_entries : FilePath → List Bytes → ℕ → Exec ℕ
  recover_entries dir [] issues = pure issues
  recover_entries dir (name ∷ names) issues =
      if has_suffix name (text ".json")
      then (do
        r ← attempt (recover_intent_file (dir ++ name ∷ []))
        elim r [
          | ok _ ↦ recover_entries dir names issues
          | err _ ↦ recover_entries dir names (suc issues)
        ])
      else recover_entries dir names issues

  -- recoverIntents
  unfoldable pub recover_intents : Exec (Unit {0})
  unfolding recover_entries intent_dir file_names
  recover_intents = do
    system_call
    dir ← gets (λ s. intent_dir s.config)
    names ← gets (λ s. file_names dir s.disk)
    issues ← recover_entries dir names 0
    require (eqb issues 0) undecodable
