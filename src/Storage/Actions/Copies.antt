-- ===== src/Storage/Actions/Copies.antt =====
-- What executeStoreTargets of cmd/storage/store.go leaves at the output path of a target.
use dps_files.Prelude.{
  Bool-cases, sym, subst, ◌∙◌, some, true, ◌≡◌, inl, inr, refl, arith, ◌==◌, ==→eq, Bytes, ℕ,
  list_eq, nat_eq,
}
use dps_files.Prelude.Map.{lookup}
use dps_files.KeyStore.Types.{Store, Platform, File, FilePath}
use dps_files.KeyStore.Exec.{
  Exec, Result, Error, ok, err, pure, require, attempt, system_call, panicked, hash_mismatch, ◌>>◌,
}
use dps_files.KeyStore.Exec.Memory.{Ensures, bind-Ensures}
use dps_files.KeyStore.Files.{load_and_store_file_local, base_name}
use dps_files.KeyStore.Reassemble.{hash_file, hash_file_sound, reassemble_file_to_path}
use dps_files.Storage.Actions.{
  Storing, skipped, kept, copied, Target, ends_set, verify_chunks, copy_back, after_store,
  store_target, copy_output_path,
}

-- The path holds bytes with the hash that the metadata of the file gives.
abbrev pub HasCopy : Platform → FilePath → File → Store → Type 0
HasCopy P out file t =
    (bytes : Bytes) × (lookup out t.disk ≡ some bytes) × (P.sha256 bytes ≡ file.meta_data.file_hash)

-- What a target comes to, with reassembly: skipped, or a copy.
abbrev pub IsStoring : Platform → FilePath → Storing → Store → Type 0
IsStoring P out skipped t = Unit {0}
IsStoring P out (kept file) t = ⊥
IsStoring P out (copied file) t = HasCopy P out file t

module _ (P : Platform) (out : FilePath) where
  checked : File → Bytes × ℕ → Exec Storing
  checked file hashed = do
    require (file.meta_data.file_hash == hashed.0) hash_mismatch
    pure (copied file)

  copied_lem :
      (r : Storing) (file : File) (t : Store)
      → ok (copied file) ≡ ok r
      → HasCopy P out file t
      → IsStoring P out r t
  copied_lem skipped file t k c = tt
  copied_lem (kept other) file t k c = absurd (ground (arith, k))
  copied_lem (copied other) file t k c =
      let same : file ≡ other = ground (arith, k) in subst (λ f. HasCopy P out f t) same c

  checked_lem :
      (file : File) (hash : Bytes) (size : ℕ) (s : Store)
      → (hash_file P out s).0 ≡ ok (hash, size)
      → Ensures (IsStoring P out) (checked file (hash, size) (hash_file P out s).1)
  unfolding checked
  checked_lem file hash size s h r e =
      let (bytes, there, same, _) = hash_file_sound P out hash size s h in
      let t = (hash_file P out s).1 in
      elim (Bool-cases (file.meta_data.file_hash == hash)) [
        | inl q ↦
            let own : file.meta_data.file_hash ≡ hash = ==→eq file.meta_data.file_hash hash q in
            let still : (checked file (hash, size) t).1 ≡ t = ground (arith, q) in
            subst (λ u. IsStoring P out r u) (sym still)
              (copied_lem r file t (ground (arith, q, e)) (bytes, there, same ∙ sym own))
        | inr q ↦ absurd (ground (arith, q, e))
      ]

  copy_back-IsStoring :
      (file : File) (s : Store) → Ensures (IsStoring P out) (copy_back P out file s)
  unfolding copy_back checked
  copy_back-IsStoring file s =
      let Q = IsStoring P out in
      bind-Ensures Q system_call _ s (λ _ _.
        bind-Ensures Q (reassemble_file_to_path P file.meta_data.file_hash out) _ _ (λ _ _.
          bind-Ensures Q (hash_file P out) (checked file) _
            (λ hashed h. checked_lem file hashed.0 hashed.1 _ h)))

  after_store-skipped :
      (dir : FilePath) (name : Bytes) (e : Error) (s : Store) (r : Storing)
      → (after_store P true dir name (err e) s).0 ≡ ok r
      → ((r ≡ skipped) × ((after_store P true dir name (err e) s).1 ≡ s))
  unfolding after_store
  after_store-skipped dir name e s r k = ground (arith, k)

  after_store-IsStoring :
      (dir : FilePath) (name : Bytes) (stored : Result File) (s : Store)
      → out ≡ copy_output_path dir name
      → Ensures (IsStoring P out) (after_store P true dir name stored s)
  unfolding after_store
  after_store-IsStoring dir name (ok file) s h =
      let Q = IsStoring P out in
      bind-Ensures Q (require (ends_set file.references) panicked) _ s (λ _ _.
        bind-Ensures Q (verify_chunks P file.references) _ _ (λ _ _.
          let t =
            (verify_chunks P file.references (require (ends_set file.references) panicked s).1).1 in
          subst (λ o. Ensures Q (copy_back P o file t)) h (copy_back-IsStoring file t)))
  after_store-IsStoring dir name (err e) s h = λ r k.
      let t = (after_store P true dir name (err e) s).1 in
      subst (λ q. IsStoring P out q t) (sym (after_store-skipped dir name e s r k).0) tt

-- When executeStoreTargets, in the mode `run` and with reassembly, reports no error on a target, then
-- it has skipped it as cached, or the output path holds a copy: bytes with the hash that the metadata
-- of the stored file gives.
pub store_target-IsStoring :
    (P : Platform) (dir : FilePath) (target : Target) (s : Store) (result : Storing)
    → (store_target P true dir target s).0 ≡ ok result
    → IsStoring P
        (copy_output_path dir (base_name P target.path))
        result
        (store_target P true dir target s).1
unfolding store_target
store_target-IsStoring P dir target s =
    let out = copy_output_path dir (base_name P target.path) in
    let Q = IsStoring P out in
    bind-Ensures Q (hash_file P target.path) _ s (λ _ _.
      bind-Ensures Q
        (attempt (load_and_store_file_local P target.random target.permissions target.path))
        (after_store P true dir (base_name P target.path)) _
        (λ stored _. after_store-IsStoring P out dir (base_name P target.path) stored _ refl))
