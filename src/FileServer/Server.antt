-- ===== src/FileServer/Server.antt =====
-- cmd/fileserver/handlers.go: what a connection's handler writes back for the bytes that arrive on it.
-- Writes to the connection do not fail.
use dps_files.Prelude.{
  ◌/◌, ℕ, ◌+◌, ◌-◌, ◌^◌, ◌%◌, ◌&&◌, none, some, List, [], ◌∷◌, ◌++◌, Bytes, text, length, take,
  drop, leb, ltb, eqb, put_be, get_be, hex_encode, if◌then◌else◌,
}
use dps_files.KeyStore.Types.{Platform, File, MetaData, hash_size}
use dps_files.KeyStore.Exec.{
  Exec, Result, Error, ok, err, pure, gets, require, attempt, ◌>>=◌, ◌>>◌, panicked,
}
use dps_files.KeyStore.Index.{get_file_by_hash, get_file_by_name, list_known_files}
use dps_files.KeyStore.Files.{store_from_reader, delete_file}
use dps_files.KeyStore.Stream.{stream_file, buffer}
use dps_files.FileServer.Frame.{
  cmd_upload, cmd_download, cmd_list, cmd_delete, status_ok, status_not_found, read_frame,
  write_error, write_json,
}

pub record FileEntry : Type 0 where
  pub name : Bytes
  pub hash : Bytes
  pub size : ℕ

-- `int64(n)` as the bound of an `io.LimitReader`, to which a negative number leaves nothing
abbrev pub limit : ℕ → ℕ
limit n = if ltb n (2 ^ 63) then n else 0

-- What the reader of handleUpload gives: the rest of the frame, then the connection.
unfoldable pub upload_data : ℕ → Bytes → Bytes → Bytes
upload_data file_size remaining conn =
    if leb file_size (length remaining)
    then take (limit file_size) (remaining ++ conn)
    else remaining ++ take (limit (file_size - length remaining)) conn

-- `%d` of a byte
show_byte : ℕ → Bytes
show_byte n =
    if ltb n 10
    then (48 + n) ∷ []
    else if ltb n 100
    then (48 + n / 10) ∷ (48 + n % 10) ∷ []
    else (48 + n / 100) ∷ (48 + n / 10 % 10) ∷ (48 + n % 10) ∷ []

entries : List MetaData → List FileEntry
entries [] = []
entries (md ∷ mds) =
    record { name = md.file_name; hash = hex_encode md.file_hash; size = md.total_size }
    ∷ entries mds

-- The text of an error, and `json.Marshal` of the list.
module _ (P : Platform) (message : Error → Bytes) (encode_entries : List FileEntry → Bytes) where
  unfoldable pub upload_reply : Result File → Bytes
  unfolding write_error
  upload_reply (err e) = write_error (message e)
  upload_reply (ok file) = status_ok ∷ file.meta_data.file_hash

  -- handleUpload. Its slice bounds are of type uint16 and wrap; a slice whose bounds are out of order
  -- panics.
  unfoldable pub handle_upload : (random tmp_random : Bytes) → ℕ → Bytes → Bytes → Exec Bytes
  unfolding upload_reply write_error
  handle_upload random tmp_random permissions header conn =
      let name_len = get_be (take 2 header) in
      let name_end = (2 + name_len) % 2 ^ 16 in
      let size_end = (10 + name_len) % 2 ^ 16 in
      let name = drop 2 (take name_end header) in
      let file_size = get_be (drop name_end (take size_end header)) in
      let received = upload_data file_size (drop size_end header) conn in
      if ltb (length header) 10
      then pure (write_error (text "upload header too short"))
      else if ltb (length header - 10) name_len
      then pure (write_error (text "invalid name length"))
      else do
        require (leb 2 name_end && leb name_end size_end) panicked
        r ← attempt (store_from_reader P random tmp_random permissions name (ok received) file_size)
        pure (upload_reply r)

  -- the end of handleDownload
  unfoldable pub send_file : Result File → Exec Bytes
  send_file (err e) s = (ok (status_not_found ∷ []), s)
  send_file (ok file) s =
      let r = stream_file P buffer file.meta_data.file_hash [] s in
      (ok (status_ok ∷ put_be 8 file.meta_data.total_size ++ r.0.1), r.1)

  unfoldable pub download_by : ℕ → Bytes → Exec Bytes
  unfolding send_file write_error show_byte
  download_by lookup_type key =
      if eqb lookup_type 0
      then (if eqb (length key) hash_size
          then (do r ← attempt (get_file_by_hash key); send_file r)
          else pure (write_error (text "invalid hash length")))
      else if eqb lookup_type 1
      then (do r ← attempt (get_file_by_name key); send_file r)
      else pure (write_error (text "invalid lookup type: " ++ show_byte lookup_type))

  -- handleDownload
  unfoldable pub handle_download : Bytes → Exec Bytes
  unfolding download_by write_error
  handle_download [] = pure (write_error (text "download payload too short"))
  handle_download (lookup_type ∷ []) = pure (write_error (text "download payload too short"))
  handle_download (lookup_type ∷ c ∷ key) = download_by lookup_type (c ∷ key)

  -- handleList
  unfoldable pub handle_list : Exec Bytes
  unfolding entries write_json
  handle_list = gets (λ s. write_json (encode_entries (entries (list_known_files s.files))))

  unfoldable pub deleted_reply : Result (Unit {0}) → Bytes
  unfolding write_error
  deleted_reply (err e) = write_error (message e)
  deleted_reply (ok _) = status_ok ∷ []

  -- handleDelete
  unfoldable pub handle_delete : Bytes → Exec Bytes
  unfolding deleted_reply write_error
  handle_delete payload =
      if eqb (length payload) hash_size
      then (do r ← attempt (delete_file payload); pure (deleted_reply r))
      else pure (write_error (text "invalid hash length"))

  unfoldable pub dispatch : (random tmp_random : Bytes) → ℕ → Bytes → Bytes → Exec Bytes
  unfolding handle_upload handle_download handle_list handle_delete write_error
  dispatch random tmp_random permissions [] conn = pure (write_error (text "empty frame"))
  dispatch random tmp_random permissions (cmd ∷ payload) conn =
      if eqb cmd cmd_upload
      then handle_upload random tmp_random permissions payload conn
      else if eqb cmd cmd_download
      then handle_download payload
      else if eqb cmd cmd_list
      then handle_list
      else if eqb cmd cmd_delete
      then handle_delete payload
      else pure (write_error (text "unknown command: 0x" ++ hex_encode (cmd ∷ [])))

  -- handleConn: the bytes that it writes for those that arrive
  unfoldable pub handle_conn : (random tmp_random : Bytes) → ℕ → Bytes → Exec Bytes
  unfolding dispatch
  handle_conn random tmp_random permissions arriving = elim (read_frame arriving) [
    | none ↦ pure []
    | some (frame, conn) ↦ dispatch random tmp_random permissions frame conn
  ]
