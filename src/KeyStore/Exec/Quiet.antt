-- ===== src/KeyStore/Exec/Quiet.antt =====
-- Actions that leave the files that are known, and their names, alone.
use dps_files.Prelude.{inr, refl, arith, inl, ◌∙◌, ◌≡◌, none, some, [], true, false}
use dps_files.KeyStore.Exec.{
  Bool, Bytes, Option, Exec, Error, pure, raise, gets, attempt, require, or_raise, when, ◌>>=◌,
  system_call, write_file, read_file, stat, remove, remove_if_present, rename,
}
use dps_files.KeyStore.Types.{Store, FilePath}
use dps_files.KeyStore.Exec.Memory.{Result-cases}

-- The two maps stay, and calls that do not fail leave none that will.
abbrev pub SameFiles : Store → Store → Type 0
SameFiles s t =
    (t.files ≡ s.files) × (t.files_by_name ≡ s.files_by_name) × (s.faults ≡ [] → t.faults ≡ [])

abbrev pub IsQuiet : {A : Type 0} → Exec A → Type 0
IsQuiet m = (s : Store) → SameFiles s (m s).1

pub SameFiles-trans : (s t u : Store) → SameFiles s t → SameFiles t u → SameFiles s u
SameFiles-trans s t u (a, b, c) (d, e, f) = (d ∙ a, e ∙ b, λ h. f (c h))

pub bind-IsQuiet :
    {A B : Type 0} (m : Exec A) (f : A → Exec B)
    → IsQuiet m
    → ((a : A) → IsQuiet (f a))
    → IsQuiet (m >>= f)
bind-IsQuiet m f q k s = elim (Result-cases (m s)) [
  | inl (a, h) ↦ rw h (SameFiles-trans s (m s).1 (f a (m s).1).1 (q s) (k a (m s).1))
  | inr (e, h) ↦ rw h (q s)
]

pub attempt-IsQuiet : {A : Type 0} (m : Exec A) → IsQuiet m → IsQuiet (attempt m)
attempt-IsQuiet m q s = q s

pub pure-IsQuiet : {A : Type 0} (a : A) → IsQuiet (pure a)
pure-IsQuiet a s = (refl, refl, λ h. h)

pub raise-IsQuiet : (A : Type 0) (e : Error) → IsQuiet (raise {A = A} e)
raise-IsQuiet A e s = (refl, refl, λ h. h)

pub gets-IsQuiet : {A : Type 0} (f : Store → A) → IsQuiet (gets f)
gets-IsQuiet f s = (refl, refl, λ h. h)

pub require-IsQuiet : (b : Bool) (e : Error) → IsQuiet (require b e)
require-IsQuiet true e s = (refl, refl, λ h. h)
require-IsQuiet false e s = (refl, refl, λ h. h)

pub or_raise-IsQuiet : {A : Type 0} (o : Option A) (e : Error) → IsQuiet (or_raise o e)
or_raise-IsQuiet none e s = (refl, refl, λ h. h)
or_raise-IsQuiet (some a) e s = (refl, refl, λ h. h)

pub when-IsQuiet : (b : Bool) (m : Exec (Unit {0})) → IsQuiet m → IsQuiet (when b m)
when-IsQuiet true m q s = q s
when-IsQuiet false m q s = (refl, refl, λ h. h)

pub system_call-IsQuiet : IsQuiet system_call
unfolding system_call
system_call-IsQuiet s = ground arith

pub write_file-IsQuiet : (path : FilePath) (bytes : Bytes) → IsQuiet (write_file path bytes)
unfolding write_file
write_file-IsQuiet path bytes s = ground arith

pub read_file-IsQuiet : (path : FilePath) → IsQuiet (read_file path)
unfolding read_file system_call
read_file-IsQuiet path s = ground arith

pub stat-IsQuiet : (path : FilePath) → IsQuiet (stat path)
unfolding stat read_file system_call
stat-IsQuiet path s = ground arith

pub remove-IsQuiet : (path : FilePath) → IsQuiet (remove path)
unfolding remove read_file system_call
remove-IsQuiet path s = ground arith

pub remove_if_present-IsQuiet : (path : FilePath) → IsQuiet (remove_if_present path)
unfolding remove_if_present remove read_file system_call
remove_if_present-IsQuiet path s = ground arith

pub rename-IsQuiet : (old new : FilePath) → IsQuiet (rename old new)
unfolding rename read_file system_call
rename-IsQuiet old new s = ground arith
