-- ===== src/KeyStore/Tests.antt =====
-- The theorems about the storage engine at concrete inputs, and runs of the definitions.
mod Lifecycle
mod Methods
use dps_files.Prelude.{
  ap, false, inr, subst, inl, ◌==◌, Bool-cases, true, length, ◌-◌, ◌⊎◌, hex_decode, hex_encode, ◌*◌,
  replicate, some, ◌<◌, ◌≤◌, Bytes, refl, ◌≡◌, ◌∷◌, [], list_eq, nat_eq, arith, text,
}
use dps_files.KeyStore.Files.Frame.{IsElsewhere}
use dps_files.KeyStore.Samples.{
  hello_key, config, hello_file, plain, empty, hello, hello-CanStore, hello_stored,
}
use dps_files.KeyStore.Index.{before_now, file_from_memory, is_expired}
use dps_files.KeyStore.Files.Cleanup.{cleanup_expired-keeps}
use dps_files.KeyStore.Stream.Integrity.{stream_file_sound, stream_file-IsVerified, IsVerified}
use dps_files.KeyStore.Types.{
  File, min_block_size, max_block_size, FilePath, IntentRecord, metadata_path, Platform, Store,
}
use dps_files.KeyStore.BlockSize.Bounds.{
  calculate_block_size-range, count_blocks_exact, calculate_block_size-IsPower,
  count_blocks-near_target, IsPower,
}
use dps_files.KeyStore.Chunk.{resolve_chunk, load_file_reference_data}
use dps_files.KeyStore.Intent.Recovery.{
  recover_intent_file-committed, recover_intent_file-uncommitted, IsUndone,
}
use dps_files.KeyStore.Exec.{read_file, ok}
use dps_files.Prelude.Map.{erase, lookup}
use dps_files.KeyStore.Files.Deletion.{delete_file-Deleted, Deleted, delete_file-others}
use dps_files.KeyStore.Intent.{recover_intent_file, parse_intent_hash}
use dps_files.KeyStore.Files.{cleanup_expired, delete_file, store_file_local}
use dps_files.KeyStore.Stream.{load_block, buffer, stream_file}
use dps_files.KeyStore.RoundTrip.Laws.{read-store}
use dps_files.KeyStore.BlockSize.{calculate_block_size, count_blocks}

read-store_example :
    let r = store_file_local plain [] (text "a.txt") hello empty in
    stream_file plain buffer hello [] r.1 ≡ ((ok tt, hello), r.1)
read-store_example = (read-store plain [] (text "a.txt") hello empty hello-CanStore).1

count_blocks_exact_example :
    let block = calculate_block_size 70000 in
    (70000 ≤ count_blocks 70000 block * block)
    × ((count_blocks 70000 block - 1) * block < 70000)
    × (0 < count_blocks 70000 block)
count_blocks_exact_example = count_blocks_exact 70000 (omega arith) (omega arith)

stream_file_sound_example :
    (file : File) × (lookup hello hello_stored.files ≡ some file)
    × (length hello ≡ file.meta_data.total_size)
    × (plain.sha256 hello ≡ file.meta_data.file_hash)
unfolding stream_file lookup is_expired load_block load_file_reference_data read_file resolve_chunk
    file_from_memory list_eq nat_eq buffer
stream_file_sound_example = stream_file_sound plain hello hello hello_stored hello_stored refl

stream_file-IsVerified_example :
    IsVerified plain hello_file.references (stream_file plain buffer hello [] hello_stored).0.1
unfolding lookup list_eq nat_eq
stream_file-IsVerified_example = stream_file-IsVerified plain hello hello_file hello_stored refl

delete_file-Deleted_example :
    let r = delete_file hello hello_stored in Deleted hello hello_file hello_stored r.0 r.1
unfolding lookup list_eq nat_eq
delete_file-Deleted_example = delete_file-Deleted hello hello_file hello_stored refl

-- Beside hello there is a file that expires at 1, under the hash 2, with another name and no chunks.
abbrev old_file : File
old_file = record {
  meta_data = record (hello_file.meta_data) {
    file_hash = 2 ∷ [];
    file_name = text "old.txt";
    ttl = 1;
    modified = 0;
  };
  references = [];
}

abbrev sweepable : Store
sweepable = record hello_stored {
  clock = 2000000000;
  files = (2 ∷ [], old_file) ∷ hello_stored.files;
  files_by_name = (text "old.txt", 2 ∷ []) ∷ hello_stored.files_by_name;
}

abbrev chunk_path : FilePath
chunk_path = text "store" ∷ text "chunk" ∷ []

sweepable-apart :
    (k : Bytes) (other : File)
    → lookup k sweepable.files ≡ some other
    → is_expired sweepable.clock other ≡ true
    → IsElsewhere chunk_path hello_key (text "a.txt") config k other
unfolding lookup is_expired before_now list_eq nat_eq metadata_path
sweepable-apart k other h x = elim (Bool-cases ((2 ∷ []) == k)) [
  | inl e ↦
      let same : old_file ≡ other = ground (arith, e, h) in
      subst (λ (f : File). IsElsewhere chunk_path hello_key (text "a.txt") config k f) same
        (λ p. cc, tt, λ p. cc)
  | inr n ↦ elim (Bool-cases (hello == k)) [
    | inl e ↦
        let same : hello_file ≡ other = ground (arith, n, e, h) in
        let lasts : is_expired sweepable.clock hello_file ≡ false = refl in
        absurd (ground (arith, lasts, x, ap (λ f. is_expired sweepable.clock f) same))
    | inr m ↦ absurd (ground (arith, n, m, h))
  ]
]

cleanup_expired-keeps_example :
    let t = (cleanup_expired sweepable).1 in
    (lookup hello t.files ≡ some hello_file)
    × (lookup chunk_path t.disk ≡ lookup chunk_path sweepable.disk)
    × (lookup hello_key t.chunk_index ≡ lookup hello_key sweepable.chunk_index)
    × (lookup (text "a.txt") t.files_by_name ≡ lookup (text "a.txt") sweepable.files_by_name)
unfolding lookup is_expired list_eq nat_eq before_now
cleanup_expired-keeps_example =
    cleanup_expired-keeps hello hello_file chunk_path hello_key (text "a.txt") sweepable
      (refl, (refl, tt)) refl refl sweepable-apart

-- An intent whose name is the hash of 32 zeros, in a store without its metadata.
abbrev no_hash : Bytes
no_hash = replicate 32 0

abbrev started : IntentRecord
started = record {
  file_hash = hex_encode no_hash;
  file_name = text "a.txt";
  total_blocks = 1;
  block_size = 5;
  started_at = 5;
}

abbrev knowing : Platform
knowing = record plain { decode_intent = λ bytes. some started }

abbrev intent : FilePath
intent = text "store" ∷ text "intent" ∷ []

abbrev crashed : Store
crashed = record empty { disk = (intent, hello) ∷ [] }

abbrev finished : Store
finished = record empty { disk = (intent, hello) ∷ (metadata_path config no_hash, hello) ∷ [] }

recover_intent_file-uncommitted_example :
    let r = recover_intent_file knowing intent crashed in
    (r.0 ≡ ok tt) × IsUndone knowing intent hello no_hash started crashed r.1
unfolding lookup parse_intent_hash hex_decode hex_encode metadata_path list_eq nat_eq
recover_intent_file-uncommitted_example =
    recover_intent_file-uncommitted knowing intent hello no_hash started crashed
      (record { readable = refl; decoded = refl; parsed = refl }) refl refl

recover_intent_file-committed_example :
    recover_intent_file knowing intent finished
    ≡ (ok tt, record finished { disk = erase intent finished.disk })
unfolding lookup parse_intent_hash hex_decode hex_encode metadata_path list_eq nat_eq
recover_intent_file-committed_example =
    recover_intent_file-committed knowing intent hello no_hash started finished hello
      (record { readable = refl; decoded = refl; parsed = refl }) refl refl
