-- ===== src/Storage/Files/Names.antt =====
-- The names in a directory when files go (filesystem.go of cmd/storage).
use dps_files.Prelude.{
  All, Bool, ap, contains, ◌∙◌, refl, inr, ==_refl, ==→eq, inl, list_eq, nat_eq, Option-cases,
  arith, ◌==◌, if◌then◌else◌, ◌++◌, ◌≡◌, Bytes, List, some, [], ◌∷◌, true,
}
use dps_files.KeyStore.Cache.{entry_name, file_names}
use dps_files.KeyStore.Cleaning.{erase_in}
use dps_files.Prelude.Map.{Map, erase}
use dps_files.KeyStore.Types.{FilePath}
use dps_files.Storage.Files.{keep}

entry_name_sound :
    (dir path : FilePath) (name : Bytes) → entry_name dir path ≡ some name → path ≡ dir ++ name ∷ []
unfolding entry_name
entry_name_sound [] [] name h = absurd (ground (arith, h))
entry_name_sound [] (c ∷ []) name h = ground (arith, h)
entry_name_sound [] (c ∷ d ∷ path) name h = absurd (ground (arith, h))
entry_name_sound (d ∷ dir) [] name h = absurd (ground (arith, h))
entry_name_sound (d ∷ dir) (c ∷ path) name h =
    ground (arith, h, entry_name_sound dir path name, ==→eq d c)

entry_name-append : (dir : FilePath) (name : Bytes) → entry_name dir (dir ++ name ∷ []) ≡ some name
unfolding entry_name
entry_name-append [] name = refl
entry_name-append (d ∷ dir) name = ground (arith, entry_name-append dir name, ==_refl d)

-- the names without one of them
unfoldable pub without : Bytes → List Bytes → List Bytes
without n [] = []
without n (name ∷ names) = let rest = without n names in if name == n then rest else name ∷ rest

unfoldable pub without_all : List Bytes → List Bytes → List Bytes
unfolding without
without_all [] names = names
without_all (n ∷ ns) names = without n (without_all ns names)

pub file_names-erase :
    (dir : FilePath) (n : Bytes) (disk : Map FilePath Bytes)
    → file_names dir (erase (dir ++ n ∷ []) disk) ≡ without n (file_names dir disk)
unfolding file_names erase without
file_names-erase dir n [] = refl
file_names-erase dir n ((path, bytes) ∷ disk) = elim (Option-cases (entry_name dir path)) [
  | inl e ↦
      ground
        (arith, e, file_names-erase dir n disk, entry_name-append dir n, ==→eq path (dir ++ n ∷ []))
  | inr (name, e) ↦ ground (
    arith,
    e,
    file_names-erase dir n disk,
    entry_name-append dir n,
    entry_name_sound dir path name e,
    ==→eq path (dir ++ n ∷ []),
    ==→eq name n,
    ==_refl path,
    ==_refl n,
  )
]

pub file_names-erase_in :
    (dir : FilePath) (ns : List Bytes) (disk : Map FilePath Bytes)
    → file_names dir (erase_in dir ns disk) ≡ without_all ns (file_names dir disk)
unfolding erase_in without_all
file_names-erase_in dir [] disk = refl
file_names-erase_in dir (n ∷ ns) disk =
    file_names-erase dir n (erase_in dir ns disk) ∙ ap (without n) (file_names-erase_in dir ns disk)

without_all-nil : (ns : List Bytes) → without_all ns [] ≡ []
unfolding without_all without
without_all-nil [] = refl
without_all-nil (n ∷ ns) = ap (without n) (without_all-nil ns)

without_all-cons :
    (ns : List Bytes) (name : Bytes) (names : List Bytes)
    → without_all ns (name ∷ names)
      ≡ (if contains name ns then without_all ns names else name ∷ without_all ns names)
unfolding without_all without contains
without_all-cons [] name names = refl
without_all-cons (n ∷ ns) name names =
    ground (arith, without_all-cons ns name names, ==→eq name n, ==→eq n name, ==_refl n)

-- Every name of the first list is in the second.
abbrev pub IsWithin : List Bytes → List Bytes → Type 0
IsWithin names ns = All (λ name. contains name ns ≡ true) names

IsWithin-cons : (n : Bytes) (names ns : List Bytes) → IsWithin names ns → IsWithin names (n ∷ ns)
unfolding contains
IsWithin-cons n [] ns h = tt
IsWithin-cons n (name ∷ names) ns (p, h) = (ground (arith, p), IsWithin-cons n names ns h)

pub IsWithin-self : (names : List Bytes) → IsWithin names names
unfolding contains
IsWithin-self [] = tt
IsWithin-self (name ∷ names) =
    (ground (arith, ==_refl name), IsWithin-cons name names names (IsWithin-self names))

pub without_all-IsWithin : (ns names : List Bytes) → IsWithin names ns → without_all ns names ≡ []
unfolding without_all without
without_all-IsWithin ns [] h = without_all-nil ns
without_all-IsWithin ns (name ∷ names) (p, h) =
    ground (arith, without_all-cons ns name names, p, without_all-IsWithin ns names h)

-- The names that pass a test, in a directory with a file less.
pub keep-without :
    (test : Bytes → Bool) (n : Bytes) (names : List Bytes)
    → keep test (without n names) ≡ without n (keep test names)
unfolding keep without
keep-without test n [] = refl
keep-without test n (name ∷ names) = ground (arith, keep-without test n names)

-- Erasing adds no name to a directory.
pub keep-erase :
    (test : Bytes → Bool) (dir path : FilePath) (disk : Map FilePath Bytes)
    → keep test (file_names dir disk) ≡ []
    → keep test (file_names dir (erase path disk)) ≡ []
unfolding keep file_names erase
keep-erase test dir path [] h = refl
keep-erase test dir path ((other, bytes) ∷ disk) h = elim (Option-cases (entry_name dir other)) [
  | inl e ↦ ground (arith, e, h, keep-erase test dir path disk)
  | inr (name, e) ↦ ground (arith, e, h, keep-erase test dir path disk)
]

pub keep-erase_in :
    (test : Bytes → Bool) (dir other : FilePath) (ns : List Bytes) (disk : Map FilePath Bytes)
    → keep test (file_names dir disk) ≡ []
    → keep test (file_names dir (erase_in other ns disk)) ≡ []
unfolding erase_in
keep-erase_in test dir other [] disk h = h
keep-erase_in test dir other (n ∷ ns) disk h =
    keep-erase test dir (other ++ n ∷ []) (erase_in other ns disk)
      (keep-erase_in test dir other ns disk h)

abbrev pub any : Bytes → Bool
any name = true

pub keep-any : (names : List Bytes) → keep any names ≡ names
unfolding keep
keep-any [] = refl
keep-any (name ∷ names) = ap (λ rest. name ∷ rest) (keep-any names)

pub without-IsWithin :
    (n : Bytes) (names ns : List Bytes) → IsWithin names (n ∷ ns) → IsWithin (without n names) ns
unfolding without contains
without-IsWithin n [] ns h = tt
without-IsWithin n (name ∷ names) ns (p, h) =
    ground (arith, p, without-IsWithin n names ns h, ==→eq n name, ==_refl name)

pub IsWithin-nil : (names : List Bytes) → IsWithin names [] → names ≡ []
unfolding contains
IsWithin-nil [] h = refl
IsWithin-nil (name ∷ names) (p, h) = absurd (ground (arith, p))
