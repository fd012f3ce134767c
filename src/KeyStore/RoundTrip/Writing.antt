-- ===== src/KeyStore/RoundTrip/Writing.antt =====
-- ReassembleFileToPath of files.go after StoreFileLocal, when no call of the operating system fails.
use dps_files.Prelude.{
  ◌^◌, some, [], zero, suc, ℕ, Bytes, ◌≡◌, ◌≢◌, ◌<◌, ◌≤◌, ◌+◌, ◌++◌, ◌∙◌, refl, sym, ap, subst,
  arith, length, list_eq, nat_eq, ==_refl,
}
use dps_files.Prelude.Map.{Map, lookup, insert, lookup-insert_self, lookup-insert_ne}
use dps_files.KeyStore.Types.{
  FilePath, KeyStoreConfig, MetaData, Platform, Store, get_local_block_location,
}
use dps_files.KeyStore.Exec.Faultless.{write_file_lem}
use dps_files.KeyStore.Exec.{ok, read_file, system_call}
use dps_files.KeyStore.Files.{block_data, store_file_local, local_meta_data}
use dps_files.KeyStore.BlockSize.{prepare_meta_data, count_blocks}
use dps_files.KeyStore.RoundTrip.Laws.{
  CanStore, store_file_local-eq, stored_from, stored_from-IsStored, local_meta_data-Fits,
  file_from_memory-stored,
}
use dps_files.KeyStore.RoundTrip.Steps.{config-after_blocks}
use dps_files.KeyStore.Index.{file_from_memory, track}
use dps_files.KeyStore.Reassemble.{
  write_blocks, finish_output, verify_output, check_output, hash_file, write_output,
  reassemble_file_to_path,
}
use dps_files.KeyStore.RoundTrip.Blocks.{joined}
use dps_files.KeyStore.RoundTrip.Commit.{Fits, joined_all, at}
use dps_files.KeyStore.RoundTrip.Stored.{Holds, Holds-disk, stored_file, load_block_lem}
use mathlib.Core.List.{append_assoc, append-nil}

-- The path is no chunk's.
abbrev pub IsApart : KeyStoreConfig → FilePath → Type 0
IsApart c out = (key : Bytes) → out ≢ get_local_block_location c key

module _ (P : Platform) (md : MetaData) (bytes : Bytes) (out : FilePath) where
  -- The file is held as well when the output is written.
  insert-Holds :
      (s : Store) (text : Bytes)
      → IsApart s.config out
      → Holds P md bytes (stored_file P md bytes s.config) s
      → Holds P md bytes
          (stored_file P md bytes s.config)
          (record s { disk = insert out text s.disk })
  insert-Holds s text apart h =
      Holds-disk P md bytes _ s (insert out text s.disk)
        (λ key.
          lookup-insert_ne (get_local_block_location s.config key) out text s.disk (apart key))
        h

  write_blocks_lem :
      (blocks i : ℕ) (written : Bytes) (s : Store)
      → IsApart s.config out
      → Holds P md bytes (stored_file P md bytes s.config) s
      → i + blocks ≤ md.total_blocks
      → lookup out s.disk ≡ some written
      → let all = written ++ joined md bytes blocks i in
        (disk : Map FilePath Bytes) × (write_blocks P out
            (at P md bytes s.config blocks i)
            written
            s
          ≡ (ok all, record s { disk = disk }))
        × (lookup out disk ≡ some all)
  unfolding write_blocks
  write_blocks_lem zero i written s apart h b there =
      (s.disk, rw (append-nil written) refl, rw (append-nil written) there)
  write_blocks_lem (suc blocks) i written s apart h b there =
      let block = block_data md bytes i in
      let next = written ++ block in
      let t : Store = record s { disk = insert out next s.disk } in
      let (disk, done, all) =
        write_blocks_lem blocks (suc i) next t apart (insert-Holds s next apart h) (omega arith)
          (lookup-insert_self out next s.disk) in
      let same = append_assoc written block (joined md bytes blocks (suc i)) in
      (
        disk,
        ground (
          arith,
          load_block_lem P md bytes s i h (omega arith),
          write_file_lem out s next h.faultless,
          done,
          same,
        ),
        rw (sym same) all,
      )

  finish_output_lem :
      (s : Store)
      → Fits P md bytes
      → P.sha256 bytes ≡ md.file_hash
      → length bytes < 2 ^ 63
      → s.faults ≡ []
      → lookup out s.disk ≡ some bytes
      → finish_output P out (stored_file P md bytes s.config) bytes s ≡ (ok tt, s)
  unfolding finish_output verify_output check_output hash_file read_file system_call
  finish_output_lem s fits hash short faultless there =
      ground (arith, there, faultless, fits.whole, hash, short, ==_refl md.file_hash)

  -- ReassembleFileToPath writes a held file out.
  pub reassemble_file_to_path_lem :
      (s : Store)
      → Fits P md bytes
      → P.sha256 bytes ≡ md.file_hash
      → length bytes < 2 ^ 63
      → IsApart s.config out
      → Holds P md bytes (stored_file P md bytes s.config) s
      → file_from_memory md.file_hash s ≡ (ok (stored_file P md bytes s.config), s)
      → (disk : Map FilePath Bytes) × (reassemble_file_to_path P md.file_hash out s
          ≡ (ok tt, record s { disk = disk }))
        × (lookup out disk ≡ some bytes)
  unfolding reassemble_file_to_path write_output
  reassemble_file_to_path_lem s fits hash short apart h known =
      let t : Store = record s { disk = insert out [] s.disk } in
      let (disk, done, all) =
        write_blocks_lem md.total_blocks 0 [] t apart (insert-Holds s [] apart h) (omega arith)
          (lookup-insert_self out [] s.disk) in
      let whole : lookup out disk ≡ some bytes = all ∙ ap some (joined_all P md bytes fits) in
      let u : Store = record s { disk = disk } in
      (
        disk,
        ground (
          arith,
          known,
          write_file_lem out s [] h.faultless,
          done,
          joined_all P md bytes fits,
          finish_output_lem u fits hash short h.faultless whole,
        ),
        whole,
      )

-- When no call of the operating system fails, the bytes are new and can be stored (they are neither
-- known nor cached, at most 2 ^ 53 long, their chunks have different keys and they do not expire at
-- once) and no chunk can stand at the output path, ReassembleFileToPath after StoreFileLocal succeeds,
-- and the output path holds exactly the bytes.
pub reassemble_file_to_path-store :
    (P : Platform) (random name bytes : Bytes) (out : FilePath) (s : Store)
    → CanStore P name bytes s
    → IsApart s.config out
    → let t =
        reassemble_file_to_path P (P.sha256 bytes) out (store_file_local P random name bytes s).1 in
      (t.0 ≡ ok tt) × (lookup out t.1.disk ≡ some bytes)
unfolding local_meta_data prepare_meta_data track count_blocks
reassemble_file_to_path-store P random name bytes out s can apart =
    let (stored_disk, e) = store_file_local-eq P name bytes s random can in
    let t = stored_from P name bytes s stored_disk in
    let st = stored_from-IsStored P name bytes s stored_disk can in
    let md = local_meta_data P name bytes s in
    let same : t.config ≡ s.config =
      config-after_blocks P md bytes md.total_blocks 0 (record s { disk = stored_disk }) in
    let (disk, done, there) =
      reassemble_file_to_path_lem P md bytes out t (local_meta_data-Fits P name bytes s can.fits)
        refl (omega (arith, can.fits)) (subst (λ c. IsApart c out) (sym same) apart) st.holds
        (file_from_memory-stored P name bytes s t can st) in
    rw (e, done) (refl, there)
