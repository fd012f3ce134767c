-- ===== src/KeyStore/Files/Deletion.antt =====
-- DeleteFile of key_store.go: what it leaves.
use dps_files.Prelude.{
  Option-cases, ==→eq, ◌==◌, Bool-cases, list_eq, nat_eq, ◌≡◌, ◌≢◌, ◌⊎◌, inl, inr, refl, ◌∙◌,
  Option, none, some, List, [], ◌∷◌, Bytes, arith, ap,
}
use dps_files.KeyStore.Files.{Map, FilePath, erase, drop_chunk, delete_chunks, delete_file}
use dps_files.KeyStore.Types.{ChunkLoc, Store, File, FileReference, metadata_path}
use dps_files.KeyStore.Exec.{Error, ok, err, Result, not_found, remove_if_present}
use dps_files.Prelude.Map.{lookup, lookup-erase, lookup-erase_self, lookup-erase_ne}
use dps_files.KeyStore.Exec.Memory.{
  Result-cases, remove_if_present-memory, remove_if_present-absent, remove_if_present-stays_absent,
}

-- The indexes that the loop over the chunks leaves alone.
abbrev named : Store → Store
named s = record s { disk = []; faults = []; chunk_index = [] }

-- A chunk is gone: neither indexed nor at the reference's location, if it has one.
abbrev pub IsGone : Option FileReference → Map Bytes ChunkLoc → Map FilePath Bytes → Type 0
IsGone none index disk = Unit {0}
IsGone (some ref) index disk =
    (lookup ref.key index ≡ none) × ((ref.location ≡ []) ⊎ (lookup ref.location disk ≡ none))

abbrev pub AllGone : List (Option FileReference) → Map Bytes ChunkLoc → Map FilePath Bytes → Type 0
AllGone [] index disk = Unit {0}
AllGone (ref ∷ refs) index disk = IsGone ref index disk × AllGone refs index disk

drop_chunk-named : (ref : FileReference) (s : Store) → named (drop_chunk ref s).1 ≡ named s
unfolding drop_chunk
drop_chunk-named ref s = ground (arith, remove_if_present-memory ref.location s)

drop_chunk-IsGone :
    (ref : FileReference) (s : Store)
    → (drop_chunk ref s).0 ≡ ok tt
    → IsGone (some ref) (drop_chunk ref s).1.chunk_index (drop_chunk ref s).1.disk
unfolding drop_chunk
drop_chunk-IsGone ref s h = (
  ground (
    arith,
    remove_if_present-memory ref.location s,
    lookup-erase_self ref.key s.chunk_index,
    lookup-erase_self ref.key (remove_if_present ref.location s).1.chunk_index,
  ),
  elim (Bool-cases (ref.location == [])) [
    | inl e ↦ inl (==→eq ref.location [] e)
    | inr n ↦ inr (ground (arith, n, remove_if_present-absent ref.location s))
  ],
)

drop_chunk-keeps :
    (old : Option FileReference) (ref : FileReference) (s : Store)
    → IsGone old s.chunk_index s.disk
    → IsGone old (drop_chunk ref s).1.chunk_index (drop_chunk ref s).1.disk
unfolding drop_chunk
drop_chunk-keeps none ref s g = tt
drop_chunk-keeps (some old) ref s (unindexed, inl nowhere) = (
  ground
      (arith, remove_if_present-memory ref.location s, lookup-erase old.key ref.key s.chunk_index),
  inl nowhere,
)
drop_chunk-keeps (some old) ref s (unindexed, inr removed) = (
  ground
      (arith, remove_if_present-memory ref.location s, lookup-erase old.key ref.key s.chunk_index),
  inr (ground (arith, remove_if_present-stays_absent old.location ref.location s removed)),
)

delete_chunks-named :
    (refs : List (Option FileReference)) (s : Store) → named (delete_chunks refs s).1 ≡ named s
unfolding delete_chunks
delete_chunks-named [] s = refl
delete_chunks-named (none ∷ refs) s = delete_chunks-named refs s
delete_chunks-named (some ref ∷ refs) s =
    ground (arith, drop_chunk-named ref s, delete_chunks-named refs (drop_chunk ref s).1)

delete_chunks-keeps :
    (old : Option FileReference) (refs : List (Option FileReference)) (s : Store)
    → IsGone old s.chunk_index s.disk
    → IsGone old (delete_chunks refs s).1.chunk_index (delete_chunks refs s).1.disk
unfolding delete_chunks
delete_chunks-keeps old [] s g = g
delete_chunks-keeps old (none ∷ refs) s g = delete_chunks-keeps old refs s g
delete_chunks-keeps old (some ref ∷ refs) s g = elim (Result-cases (drop_chunk ref s)) [
  | inl (u, h) ↦
      rw h (delete_chunks-keeps old refs (drop_chunk ref s).1 (drop_chunk-keeps old ref s g))
  | inr (e, h) ↦ rw h (drop_chunk-keeps old ref s g)
]

delete_chunks-AllGone :
    (refs : List (Option FileReference)) (s : Store)
    → (delete_chunks refs s).0 ≡ ok tt
    → AllGone refs (delete_chunks refs s).1.chunk_index (delete_chunks refs s).1.disk
unfolding delete_chunks
delete_chunks-AllGone [] s h = tt
delete_chunks-AllGone (none ∷ refs) s h = (tt, delete_chunks-AllGone refs s h)
delete_chunks-AllGone (some ref ∷ refs) s h = elim (Result-cases (drop_chunk ref s)) [
  | inr (e, f) ↦ absurd (ground (arith, f, h))
  | inl (u, f) ↦
      let t = (drop_chunk ref s).1 in
      rw f (
        delete_chunks-keeps (some ref) refs t (drop_chunk-IsGone ref s f),
        delete_chunks-AllGone refs t (ground (arith, f, h)),
      )
]

-- What DeleteFile promises of a file that is known, by what it reports.
abbrev pub Deleted : Bytes → File → Store → Result (Unit {0}) → Store → Type 0
Deleted key file s (ok _) t =
    (lookup key t.files ≡ none)
    × (lookup file.meta_data.file_name t.files_by_name ≡ none)
    × (lookup (metadata_path s.config key) t.disk ≡ none)
    × AllGone file.references t.chunk_index t.disk
Deleted key file s (err _) t = (t.files ≡ s.files) × (t.files_by_name ≡ s.files_by_name)

AllGone-remove :
    (refs : List (Option FileReference)) (path : FilePath) (s : Store)
    → AllGone refs s.chunk_index s.disk
    → AllGone refs (remove_if_present path s).1.chunk_index (remove_if_present path s).1.disk
AllGone-remove [] path s g = tt
AllGone-remove (none ∷ refs) path s (_, g) = (tt, AllGone-remove refs path s g)
AllGone-remove (some ref ∷ refs) path s ((unindexed, inl nowhere), g) = (
  (ground (arith, remove_if_present-memory path s, unindexed), inl nowhere),
  AllGone-remove refs path s g,
)
AllGone-remove (some ref ∷ refs) path s ((unindexed, inr removed), g) = (
  (
    ground (arith, remove_if_present-memory path s, unindexed),
    inr (remove_if_present-stays_absent ref.location path s removed),
  ),
  AllGone-remove refs path s g,
)

module _ (key : Bytes) (file : File) (s : Store) (h : lookup key s.files ≡ some file) where
  -- The store once the chunks are gone, and what the removal of the metadata makes of it.
  abbrev pub unchunked : Store
  unchunked = (delete_chunks file.references s).1

  abbrev pub removal : Result (Unit {0}) × Store
  removal = remove_if_present (metadata_path s.config key) unchunked

  removal-named : named removal.1 ≡ named s
  removal-named = ground (
    arith,
    remove_if_present-memory (metadata_path s.config key) unchunked,
    delete_chunks-named file.references s,
  )

  pub delete_file-stopped :
      (e : Error)
      → (delete_chunks file.references s).0 ≡ err e
      → delete_file key s ≡ (err e, unchunked)
  unfolding delete_file
  delete_file-stopped e f = ground (arith, h, f)

  module _ (f : (delete_chunks file.references s).0 ≡ ok tt) where
    pub delete_file-refused :
        (e : Error) → removal.0 ≡ err e → delete_file key s ≡ (err e, removal.1)
    unfolding delete_file
    delete_file-refused e g = ground (arith, h, f, g, delete_chunks-named file.references s)

    pub delete_file-done :
        removal.0 ≡ ok tt
        → delete_file key s ≡ (
          ok tt,
          record (removal.1) {
            files_by_name = erase file.meta_data.file_name removal.1.files_by_name;
            files = erase key removal.1.files;
          },
        )
    unfolding delete_file
    delete_file-done g = ground (arith, h, f, g, delete_chunks-named file.references s)

-- A known file that DeleteFile removes is gone whole: from the two indexes, its metadata from the
-- disk, and each of its chunks from the chunk index and from its location. If DeleteFile reports an
-- error, the file is still listed under its hash and every name as before.
pub delete_file-Deleted :
    (key : Bytes) (file : File) (s : Store)
    → lookup key s.files ≡ some file
    → let r = delete_file key s in Deleted key file s r.0 r.1
delete_file-Deleted key file s h =
    let chunks = delete_chunks file.references s in
    let path = metadata_path s.config key in
    let same = removal-named key file s h in
    elim (Result-cases chunks) [
      | inr (e, f) ↦
          let before = delete_chunks-named file.references s in
          rw (delete_file-stopped key file s h e f)
            (ap (λ (m : Store). m.files) before, ap (λ (m : Store). m.files_by_name) before)
      | inl (u, f) ↦ elim (Result-cases (remove_if_present path chunks.1)) [
        | inr (e, g) ↦
            rw (delete_file-refused key file s h f e g)
              (ap (λ (m : Store). m.files) same, ap (λ (m : Store). m.files_by_name) same)
        | inl (v, g) ↦ rw (delete_file-done key file s h f g) (
          lookup-erase_self key _,
          lookup-erase_self file.meta_data.file_name _,
          remove_if_present-absent path chunks.1 g,
          AllGone-remove file.references path chunks.1 (delete_chunks-AllGone file.references s f),
        )
      ]
    ]

-- DeleteFile of a hash that is not known reports so and changes nothing.
pub delete_file-unknown :
    (key : Bytes) (s : Store) → lookup key s.files ≡ none → delete_file key s ≡ (err not_found, s)
unfolding delete_file
delete_file-unknown key s h = ground arith

-- Whatever DeleteFile reports, the other files stay known.
pub delete_file-others :
    (key other : Bytes) (s : Store)
    → key ≢ other
    → lookup other (delete_file key s).1.files ≡ lookup other s.files
delete_file-others key other s n = elim (Option-cases (lookup key s.files)) [
  | inl unknown ↦ rw (delete_file-unknown key s unknown) refl
  | inr (file, h) ↦
      let same = ap (λ (m : Store). lookup other m.files) (removal-named key file s h) in
      let chunks = delete_chunks file.references s in
      elim (Result-cases chunks) [
        | inr (e, f) ↦
            rw (delete_file-stopped key file s h e f)
              (ap (λ (m : Store). lookup other m.files) (delete_chunks-named file.references s))
        | inl (u, f) ↦ elim (Result-cases (removal key file s h)) [
          | inr (e, g) ↦ rw (delete_file-refused key file s h f e g) same
          | inl (v, g) ↦
              rw (delete_file-done key file s h f g) (lookup-erase_ne other key _ n ∙ same)
        ]
      ]
]
