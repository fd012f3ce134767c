-- ===== src/KeyStore/Exec/Memory.antt =====
-- The calls of the operating system and the indexes in memory.
use dps_files.KeyStore.Exec.{
  ◌>>=◌, Exec, Result, Error, ok, err, system_call, write_file, read_file, stat, remove,
  remove_if_present, rename,
}
use dps_files.Prelude.Map.{lookup-erase_ne, lookup-erase, lookup, lookup-erase_self}
use dps_files.Prelude.{list_eq, nat_eq, ◌≢◌, ◌≡◌, ◌⊎◌, inl, inr, refl, none, [], Bytes, arith}
use dps_files.KeyStore.Types.{Store, FilePath}

-- The store without the disk and what its calls meet.
abbrev pub memory : Store → Store
memory s = record s { disk = []; faults = [] }

pub Result-cases :
    {A : Type 0} (r : Result A × Store) → ((a : A) × (r.0 ≡ ok a)) ⊎ ((e : Error) × (r.0 ≡ err e))
Result-cases (ok a, s) = inl (a, refl)
Result-cases (err e, s) = inr (e, refl)

-- If it returns, its value and the state after it are related.
abbrev pub Ensures : {B : Type 0} → (B → Store → Type 0) → Result B × Store → Type 0
Ensures {B} Q r = (b : B) → r.0 ≡ ok b → Q b r.1

-- A sequence ensures what its second part ensures after the first has returned.
pub bind-Ensures :
    {A B : Type 0} (Q : B → Store → Type 0) (m : Exec A) (f : A → Exec B) (s : Store)
    → ((a : A) → (m s).0 ≡ ok a → Ensures Q (f a (m s).1))
    → Ensures Q ((m >>= f) s)
bind-Ensures Q m f s k b = elim (Result-cases (m s)) [
  | inr (e, r) ↦ rw r (λ h. absurd (ground (arith, h)))
  | inl (a, r) ↦ rw r (k a r b)
]

pub system_call-memory : (s : Store) → memory (system_call s).1 ≡ memory s
unfolding system_call
system_call-memory s = ground arith

pub write_file-memory :
    (path : FilePath) (bytes : Bytes) (s : Store) → memory (write_file path bytes s).1 ≡ memory s
unfolding write_file
write_file-memory path bytes s = ground arith

pub read_file-memory : (path : FilePath) (s : Store) → memory (read_file path s).1 ≡ memory s
unfolding read_file system_call
read_file-memory path s = ground arith

pub stat-memory : (path : FilePath) (s : Store) → memory (stat path s).1 ≡ memory s
unfolding stat read_file system_call
stat-memory path s = ground arith

pub remove-memory : (path : FilePath) (s : Store) → memory (remove path s).1 ≡ memory s
unfolding remove read_file system_call
remove-memory path s = ground arith

pub remove_if_present-memory :
    (path : FilePath) (s : Store) → memory (remove_if_present path s).1 ≡ memory s
unfolding remove_if_present remove read_file system_call
remove_if_present-memory path s = ground arith

pub rename-memory : (old new : FilePath) (s : Store) → memory (rename old new s).1 ≡ memory s
unfolding rename read_file system_call
rename-memory old new s = ground arith

-- A removal that reports no error leaves nothing at the path.
pub remove_if_present-absent :
    (path : FilePath) (s : Store)
    → (remove_if_present path s).0 ≡ ok tt
    → lookup path (remove_if_present path s).1.disk ≡ none
unfolding remove_if_present remove read_file system_call
remove_if_present-absent path s h = ground (arith, lookup-erase_self path s.disk)

-- Other paths keep what they hold, whatever it reports.
pub remove_if_present-lookup_ne :
    (other path : FilePath) (s : Store)
    → path ≢ other
    → lookup other (remove_if_present path s).1.disk ≡ lookup other s.disk
unfolding remove_if_present remove read_file system_call
remove_if_present-lookup_ne other path s n = ground (arith, lookup-erase_ne other path s.disk n)

-- What is absent stays absent.
pub remove_if_present-stays_absent :
    (other path : FilePath) (s : Store)
    → lookup other s.disk ≡ none
    → lookup other (remove_if_present path s).1.disk ≡ none
unfolding remove_if_present remove read_file system_call
remove_if_present-stays_absent other path s n = ground (arith, lookup-erase other path s.disk)
