-- ===== src/KeyStore/Exec/Faultless.antt =====
-- The calls of the operating system when none of them fails.
use dps_files.KeyStore.Exec.{
  some, insert, lookup, Bytes, write_file, erase, ok, remove_if_present, remove, read_file,
  system_call,
}
use dps_files.Prelude.Map.{erase_absent}
use dps_files.Prelude.{◌≡◌, arith, [], list_eq, nat_eq}
use dps_files.KeyStore.Types.{Store, FilePath}

-- A removal of a file that may be absent leaves it absent.
pub remove_if_present_lem :
    (path : FilePath) (s : Store)
    → s.faults ≡ []
    → remove_if_present path s ≡ (ok tt, record s { disk = erase path s.disk })
unfolding remove_if_present remove read_file system_call
remove_if_present_lem path s f = ground (arith, erase_absent path s.disk)

pub system_call_lem : (s : Store) → s.faults ≡ [] → system_call s ≡ (ok tt, s)
unfolding system_call
system_call_lem s h = ground (arith, h)

pub read_file_lem :
    (path : FilePath) (bytes : Bytes) (s : Store)
    → s.faults ≡ []
    → lookup path s.disk ≡ some bytes
    → read_file path s ≡ (ok bytes, s)
unfolding read_file system_call
read_file_lem path bytes s h there = ground (arith, h, there)

pub write_file_lem :
    (path : FilePath) (s : Store) (bytes : Bytes)
    → s.faults ≡ []
    → write_file path bytes s ≡ (ok tt, record s { disk = insert path bytes s.disk })
unfolding write_file
write_file_lem path s bytes h = ground (arith, h)
