-- ===== src/HttpServer/Tests.antt =====
-- The theorems about the HTTP file server at concrete inputs.
use dps_files.HttpServer.Range.{split_dash, parse_range, parse_range-bounds}
use dps_files.Prelude.{
  parse_uint, list_eq, nat_eq, [], false, has_prefix, ◌≡◌, ◌≤◌, ◌<◌, ◌++◌, Bytes, text, refl, arith,
}
use dps_files.KeyStore.Files.{store_file_local}
use dps_files.KeyStore.Samples.{plain, empty, hello, hello-CanStore}
use dps_files.KeyStore.Stream.{buffer}
use dps_files.HttpServer.Trim.{trim_write, trim_after, trim_write-after}
use dps_files.HttpServer.Handlers.{handle_download_by_name}
use dps_files.HttpServer.Laws.{answer, download-store}

abbrev range : Bytes
range = text "bytes=1-3"

parse_range-bounds_example : (1 ≤ 3) × (3 < 5)
unfolding parse_range has_prefix nat_eq split_dash list_eq parse_uint
parse_range-bounds_example = parse_range-bounds range 5 1 3 (omega arith) (omega arith) refl

trim_write-after_example :
    trim_write buffer (trim_after 1 3 (text "he")) (text "llo")
    ≡ record { writer = trim_after 1 3 (text "he" ++ text "llo"); count = 3; failed = false }
trim_write-after_example = trim_write-after 1 3 (text "he") (text "llo")

download-store_example :
    let t = (store_file_local plain [] (text "a.txt") hello empty).1 in
    handle_download_by_name plain (text "a.txt") range t ≡ (answer hello range, t)
download-store_example =
    download-store plain [] (text "a.txt") hello range empty hello-CanStore (omega arith)
