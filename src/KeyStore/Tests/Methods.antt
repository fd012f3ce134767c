-- ===== src/KeyStore/Tests/Methods.antt =====
-- Runs of methods one after the other, and of ReassembleFileToPath.
use dps_files.KeyStore.Remote.Passing.{IsPassed, load_and_store_file_remote-passes}
use dps_files.Prelude.{ℕ, arith, List, ◌++◌, ap, some, [], ◌∷◌, text, refl, ◌≡◌, list_eq, nat_eq}
use dps_files.Prelude.Map.{lookup, insert}
use dps_files.KeyStore.Types.{get_local_block_location, File, Store, FilePath}
use dps_files.KeyStore.Samples.{
  source, source_path, source-CanStore, source-lookup, empty, hello, hello_stored, plain,
  hello-CanStore,
}
use dps_files.KeyStore.Exec.{ok, write_file, read_file, system_call}
use dps_files.KeyStore.Stream.{load_block}
use dps_files.KeyStore.Chunk.{load_file_reference_data, resolve_chunk}
use dps_files.KeyStore.Files.{base_name, loaded_meta_data, store_file_local}
use dps_files.KeyStore.Index.{
  file_from_memory, is_expired, before_now, get_file_by_name, get_file_by_hash,
}
use dps_files.KeyStore.Remote.{RemoteHandler, load_and_store_file_remote}
use dps_files.KeyStore.Naming.Steps.{Reach, here, next, stored, get_file_by_name-Reach}
use dps_files.KeyStore.RoundTrip.Laws.{read-store, file_in}
use dps_files.KeyStore.RoundTrip.Writing.{IsApart, reassemble_file_to_path-store}
use dps_files.KeyStore.Reassemble.{
  write_output, write_blocks, finish_output, verify_output, hash_file, check_output,
  reassemble_file_to_path, IsWritten, reassemble_file_to_path_sound,
}

abbrev copy : FilePath
copy = text "copy.a.txt" ∷ []

reassembled : (reassemble_file_to_path plain hello copy hello_stored).0 ≡ ok tt
unfolding reassemble_file_to_path file_from_memory lookup list_eq nat_eq is_expired write_output
    write_file write_blocks load_block load_file_reference_data resolve_chunk read_file insert
    finish_output verify_output hash_file check_output system_call before_now
reassembled = refl

reassemble_file_to_path_sound_example :
    (file : File) × (lookup hello hello_stored.files ≡ some file)
    × IsWritten plain copy file (reassemble_file_to_path plain hello copy hello_stored).1
reassemble_file_to_path_sound_example =
    reassemble_file_to_path_sound plain hello copy hello_stored reassembled

-- A file is stored in an empty key store.
abbrev after_storing : Store
after_storing = (store_file_local plain [] (text "a.txt") hello empty).1

abbrev found_file : File
found_file = file_in plain (text "a.txt") hello empty after_storing

storing : Reach plain empty after_storing
storing = next here (stored [] (text "a.txt") hello)

hello_found : (get_file_by_name (text "a.txt") after_storing).0 ≡ ok found_file
hello_found = ap (λ r. r.0) ((read-store plain [] (text "a.txt") hello empty hello-CanStore).3)

get_file_by_name-Reach_example :
    (found_file.meta_data.file_name ≡ text "a.txt")
    × (get_file_by_hash found_file.meta_data.file_hash after_storing
        ≡ (ok found_file, after_storing))
get_file_by_name-Reach_example =
    get_file_by_name-Reach plain (text "a.txt") found_file (refl, refl, refl) storing hello_found

copy-IsApart : IsApart empty.config copy
unfolding get_local_block_location
copy-IsApart key e = cc

reassemble_file_to_path-store_example :
    let t =
      reassemble_file_to_path plain hello copy
        (store_file_local plain [] (text "a.txt") hello empty).1 in
    (t.0 ≡ ok tt) × (lookup copy t.1.disk ≡ some hello)
reassemble_file_to_path-store_example =
    reassemble_file_to_path-store plain [] (text "a.txt") hello copy empty hello-CanStore
      copy-IsApart

-- A handler that keeps the lengths of its slices.
abbrev keeping : RemoteHandler (List ℕ)
keeping = record { start_receiver = λ md h. h; pass_file_reference = λ ref buffer n h. h ++ n ∷ [] }

load_and_store_file_remote-passes_example :
    let md = loaded_meta_data plain (base_name plain source_path) 420 hello source in
    let r = (load_and_store_file_remote plain keeping [] 420 source_path [] source).0 in
    IsPassed plain keeping md hello [] r.0 r.1
load_and_store_file_remote-passes_example =
    load_and_store_file_remote-passes plain keeping [] hello 420 source_path [] source
      source-CanStore (omega arith) source-lookup
