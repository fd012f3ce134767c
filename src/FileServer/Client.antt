-- ===== src/FileServer/Client.antt =====
-- cmd/storage/remote.go: the requests that the client sends, and what it makes of the bytes that come
-- back before the server closes the connection.
use dps_files.Prelude.{
  none, some, [], ◌∷◌, ◌++◌, Bytes, text, length, take, eqb, put_be, get_be, if◌then◌else◌,
}
use dps_files.FileServer.Frame.{
  cmd_upload, cmd_download, cmd_list, cmd_delete, read_full, read_frame, write_frame,
}
use dps_files.FileServer.Server.{limit}

pub data Failure : Type 0 where
  connection_lost not_on_server bad_status : Failure
  server_error : Bytes → Failure

pub data Outcome {ℓ} (A : Type ℓ) : Type ℓ where
  done : A → Outcome A
  failed : Failure → Outcome A

-- Upload: the header frame, then the file's bytes
unfoldable pub upload_request : Bytes → Bytes → Bytes
upload_request name bytes =
    write_frame (cmd_upload ∷ put_be 2 (length name) ++ name ++ put_be 8 (length bytes)) ++ bytes

-- Download, by name
unfoldable pub download_request : Bytes → Bytes
download_request name = write_frame (cmd_download ∷ 0x01 ∷ name)

-- Delete
unfoldable pub delete_request : Bytes → Bytes
delete_request hash = write_frame (cmd_delete ∷ hash)

-- List
unfoldable pub list_request : Bytes
list_request = write_frame (cmd_list ∷ [])

-- readErrorFrame
unfoldable pub read_error_frame : Bytes → Bytes
read_error_frame conn = elim (read_frame conn) [
  | none ↦ text "(could not read server error message)"
  | some (message, rest) ↦ message
]

-- The status byte that Upload, List and Delete read, and what follows it if it is StatusOK.
unfoldable pub after_status : Bytes → Outcome Bytes
unfolding read_error_frame
after_status [] = failed connection_lost
after_status (status ∷ rest) =
    if eqb status 0x00
    then done rest
    else if eqb status 0x02
    then failed (server_error (read_error_frame rest))
    else failed bad_status

read_hash : Outcome Bytes → Outcome Bytes
read_hash (failed e) = failed e
read_hash (done rest) = elim (read_full 32 rest) [
  | none ↦ failed connection_lost
  | some (hash, left) ↦ done hash
]

-- the end of Upload
unfoldable pub upload_response : Bytes → Outcome Bytes
unfolding after_status read_hash
upload_response conn = read_hash (after_status conn)

confirm : Outcome Bytes → Outcome (Unit {0})
confirm (failed e) = failed e
confirm (done rest) = done tt

-- the end of Delete
unfoldable pub delete_response : Bytes → Outcome (Unit {0})
unfolding after_status confirm
delete_response conn = confirm (after_status conn)

-- the header that Download reads; the file is what `io.Copy` takes from the connection
unfoldable pub receive : Bytes → Bytes → Outcome Bytes
receive [] stream = failed connection_lost
receive (status ∷ size) stream =
    if eqb status 0x00
    then done (take (limit (get_be size)) stream)
    else if eqb status 0x01
    then failed not_on_server
    else failed bad_status

-- the end of Download: the bytes written to the output file
unfoldable pub download_response : Bytes → Outcome Bytes
unfolding receive
download_response conn = elim (read_full 9 conn) [
  | none ↦ failed connection_lost
  | some (header, stream) ↦ receive header stream
]

read_list : Outcome Bytes → Outcome Bytes
read_list (failed e) = failed e
read_list (done rest) = elim (read_frame rest) [
  | none ↦ failed connection_lost
  | some (encoded, left) ↦ done encoded
]

-- the end of List, before the decoding of the JSON
unfoldable pub list_response : Bytes → Outcome Bytes
unfolding after_status read_list
list_response conn = read_list (after_status conn)
