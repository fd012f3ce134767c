-- ===== src/FileServer/Laws.antt =====
-- What the client and the server of the TCP protocol make of each other.
use dps_files.KeyStore.RoundTrip.Laws.{
  stream_file-stored, file_from_memory-stored, stored_from-IsStored, stored_from,
  store_file_local-eq, CanStore,
}
use dps_files.KeyStore.BlockSize.{prepare_meta_data}
use dps_files.FileServer.Frame.{
  read_full-append, status_ok, cmd_download, read_frame-write_frame, write_frame, cmd_upload,
}
use dps_files.KeyStore.Files.{local_meta_data, store_file_local, store_from_reader}
use mathlib.Core.List.{append-nil, append_assoc}
use dps_files.FileServer.Client.{receive, done, download_response, download_request, upload_request}
use dps_files.KeyStore.Index.{get_file_by_name}
use dps_files.FileServer.Server.{
  send_file, download_by, handle_download, dispatch, FileEntry, handle_conn, handle_upload,
  upload_reply, upload_data,
}
use dps_files.Prelude.{
  drop-append_at, drop_all, length-append, take-append_at, take_all, ℕ, ◌+◌, ◌^◌, ◌≤◌, ◌<◌, ◌≡◌,
  ◌∙◌, ap, List, [], ◌∷◌, ◌++◌, Bytes, length, take, drop, put_be, get_be, get_be-put_be,
  length-put_be, mod-eq_of_lt, arith, list_eq, nat_eq,
}
use dps_files.KeyStore.Types.{Platform, Store}
use dps_files.KeyStore.Exec.{Error, ok, err, pure, attempt, ◌>>=◌, panicked}

module _ (name : Bytes) (size : ℕ) where
  abbrev header : Bytes
  header = put_be 2 (length name) ++ name ++ put_be 8 size

  abbrev start : Bytes
  start = put_be 2 (length name) ++ name

  length-start : length start ≡ 2 + length name
  length-start =
      omega (arith, length-append (put_be 2 (length name)) name, length-put_be 2 (length name))

  length-header : length header ≡ 10 + length name
  length-header =
      omega (arith, length-append start (put_be 8 size), length-start, length-put_be 8 size)

  header-name_len : take 2 header ≡ put_be 2 (length name)
  header-name_len =
      ap (take 2) (append_assoc (put_be 2 (length name)) name (put_be 8 size))
      ∙ take-append_at 2 (put_be 2 (length name)) (name ++ put_be 8 size)
          (omega (arith, length-put_be 2 (length name)))

  header-name : drop 2 (take (2 + length name) header) ≡ name
  header-name =
      ap (drop 2)
        (take-append_at (2 + length name) start (put_be 8 size) (omega (arith, length-start)))
      ∙ drop-append_at 2 (put_be 2 (length name)) name
          (omega (arith, length-put_be 2 (length name)))

  header-size : drop (2 + length name) (take (10 + length name) header) ≡ put_be 8 size
  header-size =
      ap (drop (2 + length name))
        (take_all (10 + length name) header (omega (arith, length-header)))
      ∙ drop-append_at (2 + length name) start (put_be 8 size) (omega (arith, length-start))

  header-rest : drop (10 + length name) header ≡ []
  header-rest = drop_all (10 + length name) header (omega (arith, length-header))

-- The data of an upload whose frame ends with its header.
upload_data_lem :
    (bytes : Bytes) → length bytes < 2 ^ 63 → upload_data (length bytes) [] bytes ≡ bytes
unfolding upload_data
upload_data_lem bytes h =
    ground (arith, take_all (length bytes) bytes (omega arith), take_all 0 bytes)

module _ (P : Platform) (message : Error → Bytes) (encode_entries : List FileEntry → Bytes) where
  -- What the client's Upload sends is what the server stores: it calls StoreFromReader with the very
  -- name, bytes and size, for names of less than 65526 bytes and files of less than 2 ^ 63.
  pub handle_conn-upload_request :
      (random tmp_random : Bytes) (permissions : ℕ) (name bytes : Bytes) (s : Store)
      → length name + 10 < 2 ^ 16
      → length bytes < 2 ^ 63
      → handle_conn P message encode_entries random tmp_random permissions
          (upload_request name bytes)
          s
        ≡ (do
          r ←
              attempt
                (store_from_reader P random tmp_random permissions name (ok bytes) (length bytes))
          pure (upload_reply P message encode_entries r))
            s
  unfolding handle_conn upload_request dispatch handle_upload
  handle_conn-upload_request random tmp_random permissions name bytes s n w =
      let frame =
        read_frame-write_frame (cmd_upload ∷ header name (length bytes)) bytes
          (omega (arith, length-header name (length bytes))) in
      let n16 = get_be-put_be 2 (length name) (omega arith) in
      let size64 = get_be-put_be 8 (length bytes) (omega arith) in
      let name_end = mod-eq_of_lt {n = 2 + length name} {m = 2 ^ 16} (omega arith) in
      let size_end = mod-eq_of_lt {n = 10 + length name} {m = 2 ^ 16} (omega arith) in
      let size = length bytes in
      ground (
        arith,
        frame,
        n16,
        size64,
        name_end,
        size_end,
        length-header name size,
        header-name_len name size,
        header-name name size,
        header-size name size,
        header-rest name size,
        upload_data_lem bytes w,
      )

  -- A frame with command 1, a name length of 65526 to 65535 and as many bytes as it announces makes
  -- handleUpload panic: the bounds of its slices wrap around.
  pub handle_upload-wraps :
      (random tmp_random : Bytes) (permissions : ℕ) (payload conn : Bytes) (s : Store)
      → 65526 ≤ get_be (take 2 payload)
      → get_be (take 2 payload) < 2 ^ 16
      → 10 + get_be (take 2 payload) ≤ length payload
      → handle_upload P message encode_entries random tmp_random permissions payload conn s
        ≡ (err panicked, s)
  unfolding handle_upload
  handle_upload-wraps random tmp_random permissions payload conn s a b c = ground arith

  handle_conn-download_request :
      (random tmp_random : Bytes) (permissions c : ℕ) (name : Bytes) (s : Store)
      → length name + 3 < 2 ^ 32
      → let r = get_file_by_name (c ∷ name) s in
        handle_conn P message encode_entries random tmp_random permissions
          (download_request (c ∷ name))
          s
        ≡ send_file P message encode_entries r.0 r.1
  unfolding handle_conn dispatch handle_download download_by download_request
  handle_conn-download_request random tmp_random permissions c name s n =
      let body = cmd_download ∷ 0x01 ∷ c ∷ name in
      let frame = read_frame-write_frame body [] (omega arith) in
      ground (arith, frame, append-nil (write_frame body))

-- Download takes a stream that ends early for the file: of any stream no longer than the size that the
-- server announced (below 2 ^ 63), it reports success with what has arrived.
pub download_response-short :
    (size : ℕ) (stream : Bytes)
    → size < 2 ^ 63
    → length stream ≤ size
    → download_response (status_ok ∷ put_be 8 size ++ stream) ≡ done stream
unfolding download_response receive
download_response-short size stream w h =
    let header = status_ok ∷ put_be 8 size in
    let head = read_full-append 9 header stream (omega (arith, length-put_be 8 size)) in
    ground (arith, head, get_be-put_be 8 size (omega arith), take_all size stream h)

-- When no call of the operating system fails, take bytes that can be stored (they are neither known
-- nor cached, at most 2 ^ 53 long, their chunks have different keys and they do not expire at once)
-- under a name that is not empty and less than 2 ^ 32 - 2 bytes long, and ask for them at the
-- instant in which StoreFileLocal has stored them. They are downloaded whole by this name: the
-- client that sends the request of Download and reads what the server writes back gets exactly the
-- bytes, and the store does not change.
pub download-stored :
    (P : Platform) (message : Error → Bytes) (encode_entries : List FileEntry → Bytes)
    (random tmp_random : Bytes) (permissions c : ℕ) (name bytes : Bytes) (s : Store)
    → CanStore P (c ∷ name) bytes s
    → length name + 3 < 2 ^ 32
    → let t = (store_file_local P random (c ∷ name) bytes s).1 in
      let reply =
        handle_conn P message encode_entries random tmp_random permissions
          (download_request (c ∷ name))
          t in
      (out : Bytes) × (reply ≡ (ok out, t)) × (download_response out ≡ done bytes)
unfolding send_file get_file_by_name local_meta_data prepare_meta_data
download-stored P message encode_entries random tmp_random permissions c name bytes s can n =
    let (disk, e) = store_file_local-eq P (c ∷ name) bytes s random can in
    let t = stored_from P (c ∷ name) bytes s disk in
    let st = stored_from-IsStored P (c ∷ name) bytes s disk can in
    let out = status_ok ∷ put_be 8 (length bytes) ++ bytes in
    let request =
      handle_conn-download_request P message encode_entries random tmp_random permissions c name t
        n in
    let served : send_file P message encode_entries (get_file_by_name (c ∷ name) t).0
          (get_file_by_name (c ∷ name) t).1
        ≡ (ok out, t) =
      ground (
        arith,
        st.named,
        file_from_memory-stored P (c ∷ name) bytes s t can st,
        stream_file-stored P (c ∷ name) bytes s t can st,
      ) in
    rw e (
      out,
      request ∙ served,
      download_response-short (length bytes) bytes (omega (arith, can.fits)) (omega arith),
    )
