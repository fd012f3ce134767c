-- ===== src/HttpServer/Laws.antt =====
-- What the HTTP file server answers to requests for a stored file.
use dps_files.KeyStore.RoundTrip.Laws.{
  file_from_memory-stored, stored_from-IsStored, stored_from, store_file_local-eq,
  stream_file-stored, md, CanStore, IsStored, file_in,
}
use dps_files.Prelude.{
  Option-cases, inr, inl, Bool-cases, text, ◌==◌, if◌then◌else◌, mod-eq_of_lt, div-lt_iff_lt-mul,
  le-div_iff_mul-le, mul-sub, lt-div-mul-add, div-mul-le_self, drop-drop, div-add-mod', ℕ, ◌+◌, ◌-◌,
  ◌*◌, ◌/◌, ◌%◌, ◌^◌, ◌≤◌, ◌<◌, ◌≡◌, ◌∙◌, refl, ap, some, none, Bytes, [], length, take, drop,
  arith, list_eq, nat_eq,
}
use dps_files.KeyStore.Index.{get_file_by_name}
use dps_files.HttpServer.Handlers.{
  found, http_error, serve_whole, unsatisfied, Reply, part, serve_file, serve_range,
  handle_download_by_name,
}
use dps_files.HttpServer.Trim.{
  trim_start, take-take_of_le, drop-take, trimmed, trim_after, trim_write, trim_write-after,
}
use dps_files.KeyStore.BlockSize.Bounds.{
  count_blocks-lt, count_blocks_exact, calculate_block_size_bounds,
}
use dps_files.KeyStore.BlockSize.{prepare_meta_data}
use dps_files.KeyStore.Files.{local_meta_data, store_file_local}
use dps_files.KeyStore.Types.{Platform, Store}
use dps_files.KeyStore.Stream.{buffer}
use dps_files.KeyStore.RoundTrip.Ranges.{block_size, stream_chunk_range-stored}
use dps_files.HttpServer.Range.{parse_range, parse_range-bounds}

chunk_room : (block q r : ℕ) → q ≤ r → (r + 1 - q) * block ≡ r * block + block - q * block
chunk_room block q r h = omega (arith, mul-sub block (r + 1) q)

-- The chunks that hold the offsets from `first` to `last`, trimmed, are the bytes at these offsets.
trimmed-chunks :
    (block first last : ℕ) (bytes : Bytes)
    → 0 < block
    → first ≤ last
    → let n = last - first + 1 in
      let chunks = last / block + 1 - first / block in
      trimmed (first % block) n (take (chunks * block) (drop (first / block * block) bytes))
      ≡ take n (drop first bytes)
trimmed-chunks block first last bytes b h =
    let k = first % block in
    let n = last - first + 1 in
    let m = (last / block + 1 - first / block) * block in
    let rest = drop (first / block * block) bytes in
    let split = div-add-mod' first block in
    let q : first / block ≤ last / block =
      (le-div_iff_mul-le b).1 (omega (arith, div-mul-le_self first block)) in
    let room : n ≤ m - k =
      rw (chunk_room block (first / block) (last / block) q)
        (omega (arith, split, lt-div-mul-add {a = last} {b = block} b)) in
    ap (take n) (drop-take k m rest)
    ∙ take-take_of_le n (m - k) (drop k rest) room
    ∙ ap (take n) (drop-drop k (first / block * block) bytes)
    ∙ ap (λ (j : ℕ). take n (drop j bytes)) split

module _ (bytes : Bytes) where
  -- The reply with the bytes from offset `first` to offset `last`.
  abbrev pub partial : ℕ → ℕ → Reply
  partial first last = record {
    status = 206;
    content_length = some (last - first + 1);
    content_range = some (part first last (length bytes));
    body = take (last - first + 1) (drop first bytes);
  }

  -- The reply with the whole file, and the reply to a range that is none of this file's.
  abbrev pub complete : Reply
  complete = record {
    status = 200;
    content_length = some (length bytes);
    content_range = none;
    body = bytes;
  }

  abbrev pub unsatisfiable : Reply
  unsatisfiable = record {
    status = 416;
    content_length = none;
    content_range = some (unsatisfied (length bytes));
    body = text "invalid range\n";
  }

  -- The reply to a request for the file, by its header `Range`.
  abbrev pub answer : Bytes → Reply
  answer header = if header == [] then complete else elim (parse_range header (length bytes)) [
    | none ↦ unsatisfiable
    | some (first, last) ↦ partial first last
  ]

module _ (P : Platform) (name bytes : Bytes) (s t : Store) (can : CanStore P name bytes s)
    (st : IsStored P name bytes s t) where
  serve_range-stored :
      (first last : ℕ)
      → first ≤ last
      → last < length bytes
      → serve_range P (file_in P name bytes s t) first last t ≡ (partial bytes first last, t)
  unfolding serve_range local_meta_data prepare_meta_data
  serve_range-stored first last h l =
      let block = block_size P name bytes s t can st in
      let size = length bytes in
      let total = (md P name bytes s).total_blocks in
      let (pos, _, _, _) = calculate_block_size_bounds size (omega arith) in
      let (cover, _, _) = count_blocks_exact size (omega arith) can.fits in
      let few = count_blocks-lt size block in
      let q : first / block ≤ last / block =
        (le-div_iff_mul-le pos).1 (omega (arith, div-mul-le_self first block)) in
      let under : last / block < total = (div-lt_iff_lt-mul pos).1 (omega (arith, cover)) in
      let inside : last / block + 1 ≤ total = omega arith in
      let streamed =
        stream_chunk_range-stored P name bytes s t can st (trim_write buffer)
          (trim_after (first % block) (last - first + 1))
          (trim_write-after (first % block) (last - first + 1)) (first / block) (last / block + 1)
          (omega arith) inside in
      let body = trimmed-chunks block first last bytes pos h in
      let small = mod-eq_of_lt {n = first / block} {m = 2 ^ 32} (omega arith) in
      let small_last = mod-eq_of_lt {n = last / block} {m = 2 ^ 32} (omega arith) in
      let next = mod-eq_of_lt {n = last / block + 1} {m = 2 ^ 32} (omega arith) in
      let fits = mod-eq_of_lt {n = last - first + 1} {m = 2 ^ 64} (omega (arith, can.fits)) in
      rw
        (
          small,
          small_last,
          next,
          fits,
          trim_start (first % block) (last - first + 1),
          streamed,
          body,
        )
        refl

  serve_whole-stored : serve_whole P (file_in P name bytes s t) t ≡ (complete bytes, t)
  unfolding serve_whole local_meta_data prepare_meta_data
  serve_whole-stored = rw (stream_file-stored P name bytes s t can st) refl

  serve_file-stored :
      (header : Bytes)
      → 0 < length bytes
      → serve_file P (file_in P name bytes s t) header t ≡ (answer bytes header, t)
  unfolding serve_file http_error local_meta_data prepare_meta_data
  serve_file-stored header pos =
      let (block, _, _, _) = calculate_block_size_bounds (length bytes) pos in
      let whole = serve_whole-stored in
      elim (Bool-cases (header == [])) [
        | inl e ↦ ground (arith, e, whole)
        | inr e ↦ elim (Option-cases (parse_range header (length bytes))) [
          | inl n ↦ ground (arith, e, n)
          | inr ((first, last), p) ↦
              let (a, b) =
                parse_range-bounds header (length bytes) first last pos (omega (arith, can.fits))
                  p in
              ground (arith, e, p, serve_range-stored first last a b)
        ]
      ]

-- When no call of the operating system fails, take bytes that are not empty and can be stored (they
-- are neither known nor cached, at most 2 ^ 53 long, their chunks have different keys and they do
-- not expire at once), and ask for them by name at the instant in which StoreFileLocal has stored
-- them. HTTP answers as it should: without a header `Range` the whole file with its length (200);
-- for a range that parseRange reads, exactly the bytes from its first to its last offset, with their
-- number and place (206); for any other range nothing but the size (416). The store does not change.
pub download-store :
    (P : Platform) (random name bytes header : Bytes) (s : Store)
    → CanStore P name bytes s
    → 0 < length bytes
    → let t = (store_file_local P random name bytes s).1 in
      handle_download_by_name P name header t ≡ (answer bytes header, t)
unfolding handle_download_by_name found get_file_by_name
download-store P random name bytes header s can pos =
    let (disk, e) = store_file_local-eq P name bytes s random can in
    let t = stored_from P name bytes s disk in
    let st = stored_from-IsStored P name bytes s disk can in
    rw e (
      ground (
        arith,
        st.named,
        file_from_memory-stored P name bytes s t can st,
        serve_file-stored P name bytes s t can st header pos,
      ))
