-- ===== src/KeyStore/Exec.antt =====
-- Methods of `*KeyStore` as actions on a `Store`: an error is a value, and what was changed before
-- it stays changed. The calls of package os that the methods make are actions too.
pub mod Faultless
pub mod Memory
pub mod Quiet
use dps_files.Prelude.{
  ℕ, Bool, true, false, Option, none, some, [], ◌∷◌, Bytes, length, take, list_eq, nat_eq,
}
use dps_files.Prelude.Map.{lookup, insert, erase}
use dps_files.KeyStore.Types.{Store, FilePath, Fault, refused, cut_at}

pub data Error : Type 0 where
  not_exist io_failed not_found expired size_mismatch hash_mismatch missing_reference : Error
  cached invalid_range unexpected_eof undecodable panicked : Error

pub data Result {ℓ} (A : Type ℓ) : Type ℓ where
  ok : A → Result A
  err : Error → Result A

abbrev pub Exec : Type 0 → Type 0
Exec A = Store → Result A × Store

abbrev pub pure : {A : Type 0} → A → Exec A
pure a s = (ok a, s)

abbrev pub raise : {A : Type 0} → Error → Exec A
raise e s = (err e, s)

abbrev pub gets : {A : Type 0} → (Store → A) → Exec A
gets f s = (ok (f s), s)

abbrev pub modify : (Store → Store) → Exec (Unit {0})
modify f s = (ok tt, f s)

abbrev pub continue : {A B : Type 0} → Result A → (A → Exec B) → Exec B
continue (ok a) f s = f a s
continue (err e) f s = (err e, s)

infixl 5 ◌>>=◌ ◌>>◌
abbrev pub ◌>>=◌ : {A B : Type 0} → Exec A → (A → Exec B) → Exec B
◌>>=◌ m f s = let r = m s in continue r.0 f r.1

abbrev pub ◌>>◌ : {A B : Type 0} → Exec A → Exec B → Exec B
m >> n = m >>= λ _. n

-- `if err := m(); err != nil` with a body that does not return
abbrev pub attempt : {A : Type 0} → Exec A → Exec (Result A)
attempt m s = let r = m s in (ok r.0, r.1)

abbrev pub require : Bool → Error → Exec (Unit {0})
require true e = pure tt
require false e = raise e

abbrev pub or_raise : {A : Type 0} → Option A → Error → Exec A
or_raise none e = raise e
or_raise (some a) e = pure a

abbrev pub when : Bool → Exec (Unit {0}) → Exec (Unit {0})
when true m = m
when false m = pure tt

-- What the next call of the operating system meets.
abbrev pub next_fault : Exec (Option Fault)
next_fault s = elim s.faults [ [] ↦ (ok none, s) | f ∷ rest ↦ (ok f, record s { faults = rest }) ]

-- A call that changes no file: MkdirAll, ReadDir, Close, Sync.
unfoldable pub system_call : Exec (Unit {0})
system_call = do f ← next_fault; elim f [ none ↦ pure tt | some _ ↦ raise io_failed ]

abbrev write_outcome : FilePath → Bytes → Option Fault → Exec (Unit {0})
write_outcome path bytes none s = (ok tt, record s { disk = insert path bytes s.disk })
write_outcome path bytes (some refused) s = (err io_failed, s)
write_outcome path bytes (some (cut_at n)) s =
    (err io_failed, record s { disk = insert path (take n bytes) s.disk })

-- `os.WriteFile`, and `os.Create` followed by a write of the whole text
unfoldable pub write_file : FilePath → Bytes → Exec (Unit {0})
write_file path bytes = do f ← next_fault; write_outcome path bytes f

-- `os.ReadFile`
unfoldable pub read_file : FilePath → Exec Bytes
unfolding system_call
read_file path = do system_call; found ← gets (λ s. lookup path s.disk); or_raise found not_exist

-- `os.Stat`, with the size that it reports
unfoldable pub stat : FilePath → Exec ℕ
unfolding read_file
stat path = do bytes ← read_file path; pure (length bytes)

-- `os.Remove`
unfoldable pub remove : FilePath → Exec (Unit {0})
unfolding read_file
remove path = do read_file path; modify (λ s. record s { disk = erase path s.disk })

abbrev ignore_absent : Result (Unit {0}) → Exec (Unit {0})
ignore_absent (err not_exist) = pure tt
ignore_absent (err e) = raise e
ignore_absent (ok _) = pure tt

-- `if err := os.Remove(path); err != nil && !os.IsNotExist(err)`
unfoldable pub remove_if_present : FilePath → Exec (Unit {0})
unfolding remove
remove_if_present path = do r ← attempt (remove path); ignore_absent r

-- `os.Rename`
unfoldable pub rename : FilePath → FilePath → Exec (Unit {0})
unfolding read_file
rename old new = do
  bytes ← read_file old
  modify (λ s. record s { disk = insert new bytes (erase old s.disk) })

-- `defer`: the cleanup runs after the body, whatever the body returned.
abbrev pub deferred : {A : Type 0} → Exec (Unit {0}) → Exec A → Exec A
deferred cleanup m s = let r = m s in (r.0, (cleanup r.1).1)
