-- ===== src/KeyStore/Naming/Quiet.antt =====
-- What key_store.go, intent.go and file_reference.go do without touching the files that are known.
use dps_files.Prelude.{
  text, hex_encode, ◌++◌, Option-cases, inl, refl, Bool, Option, arith, inr, Bytes, List, none,
  some, [], ◌∷◌, true, false,
}
use dps_files.KeyStore.Exec.Memory.{Result-cases, system_call-memory}
use dps_files.KeyStore.Types.{
  Platform, FileReference, MetaData, FilePath, get_local_block_location, intent_path,
}
use dps_files.KeyStore.Exec.{stat, write_file, rename, system_call, read_file, remove_if_present}
use dps_files.KeyStore.Exec.Quiet.{
  IsQuiet, system_call-IsQuiet, write_file-IsQuiet, read_file-IsQuiet, stat-IsQuiet, remove-IsQuiet,
  remove_if_present-IsQuiet, rename-IsQuiet,
}
use dps_files.KeyStore.Index.{exists_any, local_reference_exists, has_missing_references}
use dps_files.KeyStore.Cache.{
  cache_entry_is_live, scan_cache_entries, cache_entry_paths_for_hash, has_cache_entry_for_hash,
  ensure_hash_not_cached,
}
use dps_files.KeyStore.Intent.{intent_record, intent_dir, write_intent, clear_intent}
use dps_files.KeyStore.Chunk.{store_file_reference, verify_written}

exists_any-IsQuiet : (paths : List FilePath) → IsQuiet (exists_any paths)
unfolding exists_any
exists_any-IsQuiet [] s = (refl, refl, λ h. h)
exists_any-IsQuiet (path ∷ paths) s =
    ground (arith, stat-IsQuiet path s, exists_any-IsQuiet paths (stat path s).1)

local_reference_exists-IsQuiet : (ref : FileReference) → IsQuiet (local_reference_exists ref)
unfolding local_reference_exists
local_reference_exists-IsQuiet ref s = exists_any-IsQuiet _ s

pub has_missing_references-IsQuiet :
    (refs : List (Option FileReference)) → IsQuiet (has_missing_references refs)
unfolding has_missing_references
has_missing_references-IsQuiet [] s = (refl, refl, λ h. h)
has_missing_references-IsQuiet (none ∷ refs) s = (refl, refl, λ h. h)
has_missing_references-IsQuiet (some ref ∷ refs) s =
    let t = (local_reference_exists ref s).1 in
    ground (
      arith,
      local_reference_exists-IsQuiet ref s,
      has_missing_references-IsQuiet refs s,
      has_missing_references-IsQuiet refs t,
    )

pub clear_intent-IsQuiet : (hash : Bytes) → IsQuiet (clear_intent hash)
unfolding clear_intent
clear_intent-IsQuiet hash s = remove_if_present-IsQuiet (intent_path s.config hash) s

module _ (P : Platform) where
  cache_entry_is_live-IsQuiet : (path : FilePath) → IsQuiet (cache_entry_is_live P path)
  unfolding cache_entry_is_live
  cache_entry_is_live-IsQuiet path s = elim (Result-cases (read_file path s)) [
    | inr (e, h) ↦ ground (arith, h, read_file-IsQuiet path s)
    | inl (bytes, h) ↦ elim (Option-cases (P.decode_file bytes)) [
      | inl d ↦ ground (arith, h, d, read_file-IsQuiet path s)
      | inr (file, d) ↦ ground (
        arith,
        h,
        d,
        read_file-IsQuiet path s,
        has_missing_references-IsQuiet file.references (read_file path s).1,
      )
    ]
  ]

  scan_cache_entries-IsQuiet :
      (paths : List FilePath) (found : Bool) → IsQuiet (scan_cache_entries P paths found)
  unfolding scan_cache_entries
  scan_cache_entries-IsQuiet [] found s = (refl, refl, λ h. h)
  scan_cache_entries-IsQuiet (path ∷ paths) found s =
      let t = (cache_entry_is_live P path s).1 in
      let u = (remove_if_present path t).1 in
      ground (
        arith,
        cache_entry_is_live-IsQuiet path s,
        remove_if_present-IsQuiet path t,
        scan_cache_entries-IsQuiet paths true t,
        scan_cache_entries-IsQuiet paths found u,
      )

  cache_entry_paths_for_hash-IsQuiet : (hash : Bytes) → IsQuiet (cache_entry_paths_for_hash hash)
  unfolding cache_entry_paths_for_hash system_call
  cache_entry_paths_for_hash-IsQuiet hash s = ground arith

  pub ensure_hash_not_cached-IsQuiet : (hash : Bytes) → IsQuiet (ensure_hash_not_cached P hash)
  unfolding ensure_hash_not_cached has_cache_entry_for_hash
  ensure_hash_not_cached-IsQuiet hash s = elim (Result-cases (cache_entry_paths_for_hash hash s)) [
    | inr (e, h) ↦ ground (arith, h, cache_entry_paths_for_hash-IsQuiet hash s)
    | inl (paths, h) ↦ ground (
      arith,
      h,
      cache_entry_paths_for_hash-IsQuiet hash s,
      scan_cache_entries-IsQuiet paths false (cache_entry_paths_for_hash hash s).1,
    )
  ]

  pub write_intent-IsQuiet : (random : Bytes) (md : MetaData) → IsQuiet (write_intent P random md)
  unfolding write_intent
  write_intent-IsQuiet random md s =
      let tmp =
        intent_dir s.config
        ++ (hex_encode md.file_hash ++ text "-" ++ random ++ text ".tmp") ∷ [] in
      let final = intent_path s.config md.file_hash in
      let a = (system_call s).1 in
      let b = (write_file tmp [] a).1 in
      let c = (write_file tmp (P.encode_intent (intent_record md)) b).1 in
      let d = (system_call c).1 in
      let e = (rename tmp final d).1 in
      ground (
        arith,
        system_call-IsQuiet s,
        write_file-IsQuiet tmp [] a,
        write_file-IsQuiet tmp (P.encode_intent (intent_record md)) b,
        system_call-IsQuiet c,
        rename-IsQuiet tmp final d,
        remove-IsQuiet tmp c,
        remove-IsQuiet tmp d,
        remove-IsQuiet tmp e,
        system_call-memory s,
      )

  verify_written-IsQuiet :
      (path : FilePath) (bytes : Bytes) (ref : FileReference)
      → IsQuiet (verify_written P path bytes ref)
  unfolding verify_written read_file system_call
  verify_written-IsQuiet path bytes ref s = ground arith

  pub store_file_reference-IsQuiet :
      (ref : FileReference) (bytes : Bytes) → IsQuiet (store_file_reference P ref bytes)
  unfolding store_file_reference
  store_file_reference-IsQuiet ref bytes s =
      let path = get_local_block_location s.config ref.key in
      let a = (system_call s).1 in
      let b = (write_file path bytes a).1 in
      ground (
        arith,
        system_call-IsQuiet s,
        write_file-IsQuiet path bytes a,
        verify_written-IsQuiet path bytes ref b,
      )
