-- ===== src/HttpServer/Handlers.antt =====
-- The handlers of cmd/httpserver/handlers.go, as functions of what they take from a request.
use dps_files.Prelude.{
  parse_uint, ℕ, ◌+◌, ◌-◌, ◌/◌, ◌^◌, ◌%◌, true, false, ◌||◌, Option, none, some, List, [], ◌∷◌,
  ◌++◌, Bytes, text, eqb, ◌==◌, list_eq, nat_eq, hex_encode,
}
use dps_files.KeyStore.Types.{Store, Platform, File, MetaData, uint32}
use dps_files.KeyStore.Exec.{Result, Error, ok, err}
use dps_files.KeyStore.Index.{get_file_by_hash, get_file_by_name, list_known_files}
use dps_files.KeyStore.Intent.{parse_intent_hash}
use dps_files.KeyStore.Files.{store_from_reader, delete_file}
use dps_files.KeyStore.Stream.{stream_file, stream_chunk_range, buffer}
use dps_files.HttpServer.Range.{parse_range}
use dps_files.HttpServer.Trim.{TrimWriter, trim_write}

-- the header `Content-Range`
pub data ContentRange : Type 0 where
  part : ℕ → ℕ → ℕ → ContentRange
  unsatisfied : ℕ → ContentRange

-- What the client sees: the headers that carry offsets, and what was written to it.
pub record Reply : Type 0 where
  pub status : ℕ
  pub content_length : Option ℕ
  pub content_range : Option ContentRange
  pub body : Bytes

pub record FileResponse : Type 0 where
  pub hash : Bytes
  pub size : ℕ
  pub name : Bytes

-- `http.Error`
unfoldable pub http_error : Bytes → ℕ → Reply
http_error message code = record {
  status = code;
  content_length = none;
  content_range = none;
  body = message ++ text "\n";
}

abbrev pub plain_reply : ℕ → Bytes → Reply
plain_reply code body = record {
  status = code;
  content_length = none;
  content_range = none;
  body = body;
}

abbrev pub Handler : Type 0
Handler = Store → Reply × Store

unfoldable pub file_response : MetaData → FileResponse
file_response md = record {
  hash = hex_encode md.file_hash;
  size = md.total_size;
  name = md.file_name;
}

responses : List MetaData → List FileResponse
responses [] = []
responses (md ∷ mds) = file_response md ∷ responses mds

-- `hex.DecodeString` of the path's value, and the test of its length
abbrev hash_of : Bytes → Option Bytes
hash_of = parse_intent_hash

module _ (P : Platform) where
  -- serveFile without a range
  unfoldable pub serve_whole : File → Handler
  serve_whole file s =
      let r = stream_file P buffer file.meta_data.file_hash [] s in
      (
        record {
          status = 200;
          content_length = some file.meta_data.total_size;
          content_range = none;
          body = r.0.1;
        },
        r.1,
      )

  -- serveFile with a valid range
  unfoldable pub serve_range : File → ℕ → ℕ → Handler
  serve_range file start end_ s =
      let block_size = file.meta_data.block_size in
      let content_len = (end_ - start + 1) % 2 ^ 64 in
      let tw : TrimWriter Bytes = record {
        inner = [];
        skip = start % block_size;
        limit = content_len;
        written = 0;
      } in
      let r =
        stream_chunk_range P (trim_write buffer) file.meta_data.file_hash
          (uint32 (start / block_size)) (uint32 (uint32 (end_ / block_size) + 1)) tw s in
      (
        record {
          status = 206;
          content_length = some content_len;
          content_range = some (part start end_ file.meta_data.total_size);
          body = r.0.1.inner;
        },
        r.1,
      )

  -- serveFile; no header `Range` is the empty text
  unfoldable pub serve_file : File → Bytes → Handler
  unfolding serve_whole serve_range http_error
  serve_file file range_header s =
      let total_size = file.meta_data.total_size in
      elim (range_header == [] || eqb file.meta_data.block_size 0) [
        | true ↦ serve_whole file s
        | false ↦ elim (parse_range range_header total_size) [
          | none ↦ (
            record (http_error (text "invalid range") 416) {
              content_range = some (unsatisfied total_size);
            },
            s,
          )
          | some (start, end_) ↦ serve_range file start end_ s
        ]
      ]

  unfoldable pub found : Result File → Bytes → Handler
  unfolding serve_file http_error
  found (err e) range_header s = (http_error (text "not found") 404, s)
  found (ok file) range_header s = serve_file file range_header s

  -- handleDownloadByName
  unfoldable pub handle_download_by_name : Bytes → Bytes → Handler
  unfolding found
  handle_download_by_name name range_header s =
      let r = get_file_by_name name s in found r.0 range_header r.1

  -- handleDownloadByHash
  unfoldable pub handle_download_by_hash : Bytes → Bytes → Handler
  unfolding found
  handle_download_by_hash hex_hash range_header s = elim (hash_of hex_hash) [
    | none ↦ (http_error (text "invalid hash") 400, s)
    | some hash ↦ (let r = get_file_by_hash hash s in found r.0 range_header r.1)
  ]

  -- The text of an error, and `json.NewEncoder(w).Encode`.
  module _ (message : Error → Bytes) (encode_response : FileResponse → Bytes)
      (encode_responses : List FileResponse → Bytes) where
    stored_reply : Result File → Reply
    unfolding http_error
    stored_reply (err e) = http_error (message e) 500
    stored_reply (ok file) = plain_reply 201 (encode_response (file_response file.meta_data))

    -- handleUpload; `received` is what the body gave before its end or an error
    unfoldable pub handle_upload :
        (random tmp_random : Bytes) → ℕ → Bytes → Bytes → Result Bytes → Handler
    unfolding stored_reply http_error
    handle_upload random tmp_random permissions name content_length received s = elim (name == []) [
      | true ↦ (http_error (text "missing filename") 400, s)
      | false ↦ elim (parse_uint content_length) [
        | none ↦ (http_error (text "Content-Length required") 400, s)
        | some size ↦ elim (eqb size 0) [
          | true ↦ (http_error (text "Content-Length required") 400, s)
          | false ↦
              (let r = store_from_reader P random tmp_random permissions name received size s in
                (stored_reply r.0, r.1))
        ]
      ]
    ]

    deleted_reply : Result (Unit {0}) → Reply
    unfolding http_error
    deleted_reply (err e) = http_error (message e) 404
    deleted_reply (ok _) = plain_reply 204 []

    -- handleDeleteByHash
    unfoldable pub handle_delete_by_hash : Bytes → Handler
    unfolding deleted_reply http_error
    handle_delete_by_hash hex_hash s = elim (hash_of hex_hash) [
      | none ↦ (http_error (text "invalid hash") 400, s)
      | some hash ↦ (let r = delete_file hash s in (deleted_reply r.0, r.1))
    ]

    -- handleListFiles
    unfoldable pub handle_list_files : Handler
    unfolding responses
    handle_list_files s =
        (plain_reply 200 (encode_responses (responses (list_known_files s.files))), s)
