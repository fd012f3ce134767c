-- ===== src/FileServer/Tests.antt =====
-- The theorems about the TCP protocol at concrete inputs.
use dps_files.KeyStore.Exec.{pure, attempt, ◌>>=◌, ok, panicked, err, Error}
use dps_files.KeyStore.Files.{store_from_reader, store_file_local}
use dps_files.Prelude.{
  take, get_be, length-replicate, List, put_be, replicate, ℕ, ◌≡◌, ◌++◌, ◌∷◌, [], Bytes, text, refl,
  arith,
}
use dps_files.FileServer.Client.{download_request, upload_request, download_response, done}
use dps_files.KeyStore.Samples.{plain, empty, hello, hello-CanStore}
use dps_files.FileServer.Server.{FileEntry, handle_conn, handle_upload, upload_reply}
use dps_files.FileServer.Laws.{
  handle_conn-upload_request, handle_upload-wraps, download_response-short, download-stored,
}

abbrev no_message : Error → Bytes
no_message e = []

abbrev no_entries : List FileEntry → Bytes
no_entries es = []

handle_conn-upload_request_example :
    handle_conn plain no_message no_entries [] [] 0o600 (upload_request (text "a.txt") hello) empty
    ≡ (do
      r ← attempt (store_from_reader plain [] [] 0o600 (text "a.txt") (ok hello) 5)
      pure (upload_reply plain no_message no_entries r))
        empty
handle_conn-upload_request_example =
    handle_conn-upload_request plain no_message no_entries [] [] 0o600 (text "a.txt") hello empty
      (omega arith) (omega arith)

abbrev long_name : Bytes
long_name = 0xff ∷ 0xff ∷ replicate 65543 97

long_name_announced : get_be (take 2 long_name) ≡ 65535
unfolding get_be
long_name_announced = refl

handle_upload-wraps_example :
    handle_upload plain no_message no_entries [] [] 0o600 long_name [] empty ≡ (err panicked, empty)
handle_upload-wraps_example =
    handle_upload-wraps plain no_message no_entries [] [] 0o600 long_name [] empty
      (omega (arith, long_name_announced)) (omega (arith, long_name_announced))
      (omega (arith, long_name_announced, length-replicate {A = ℕ} 65543 97))

download_response-short_example : download_response (0 ∷ put_be 8 5 ++ text "he") ≡ done (text "he")
download_response-short_example = download_response-short 5 (text "he") (omega arith) (omega arith)

download-stored_example :
    let t = (store_file_local plain [] (text "a.txt") hello empty).1 in
    let reply =
      handle_conn plain no_message no_entries [] [] 0o600 (download_request (text "a.txt")) t in
    (out : Bytes) × (reply ≡ (ok out, t)) × (download_response out ≡ done hello)
download-stored_example =
    download-stored plain no_message no_entries [] [] 0o600 b'a' (text ".txt") hello empty
      hello-CanStore (omega arith)
