-- ===== src/FileServer/Frame.antt =====
-- cmd/fileserver/protocol.go: commands, statuses and frames. A connection that is read is the bytes
-- that still arrive on it.
use dps_files.Prelude.{
  drop-append_at, take-append_at, length-append, ℕ, ◌^◌, ◌<◌, ◌≡◌, Option, none, some, ◌∷◌, ◌++◌,
  Bytes, length, take, drop, leb, put_be, get_be, get_be-put_be, length-put_be, if◌then◌else◌,
  arith,
}
use mathlib.Core.List.{append_assoc}

abbrev pub cmd_upload : ℕ
cmd_upload = 0x01

abbrev pub cmd_download : ℕ
cmd_download = 0x02

abbrev pub cmd_list : ℕ
cmd_list = 0x03

abbrev pub cmd_delete : ℕ
cmd_delete = 0x04

abbrev pub status_ok : ℕ
status_ok = 0x00

abbrev pub status_not_found : ℕ
status_not_found = 0x01

abbrev pub status_error : ℕ
status_error = 0x02

-- `io.ReadFull` of n bytes: what was read, and what is left
unfoldable pub read_full : ℕ → Bytes → Option (Bytes × Bytes)
read_full n bytes = if leb n (length bytes) then some (take n bytes, drop n bytes) else none

-- readFrame
unfoldable pub read_frame : Bytes → Option (Bytes × Bytes)
unfolding read_full
read_frame bytes = elim (read_full 4 bytes) [
  | none ↦ none
  | some (prefix, rest) ↦ read_full (get_be prefix) rest
]

-- writeFrame
unfoldable pub write_frame : Bytes → Bytes
write_frame bytes = put_be 4 (length bytes) ++ bytes

-- writeError
unfoldable pub write_error : Bytes → Bytes
unfolding write_frame
write_error message = status_error ∷ write_frame message

-- writeJSON, after the encoding
unfoldable pub write_json : Bytes → Bytes
unfolding write_frame
write_json bytes = status_ok ∷ write_frame bytes

pub read_full-append :
    (n : ℕ) (xs ys : Bytes) → n ≡ length xs → read_full n (xs ++ ys) ≡ some (xs, ys)
unfolding read_full
read_full-append n xs ys h =
    ground (arith, length-append xs ys, take-append_at n xs ys h, drop-append_at n xs ys h)

-- A frame of less than 4 GB is read back, and what follows it on the connection stays.
pub read_frame-write_frame :
    (bytes rest : Bytes)
    → length bytes < 2 ^ 32
    → read_frame (write_frame bytes ++ rest) ≡ some (bytes, rest)
unfolding read_frame write_frame
read_frame-write_frame bytes rest h =
    let prefix = put_be 4 (length bytes) in
    let head =
      read_full-append 4 prefix (bytes ++ rest) (omega (arith, length-put_be 4 (length bytes))) in
    let body =
      read_full-append (get_be prefix) bytes rest (get_be-put_be 4 (length bytes) (omega arith)) in
    ground (arith, append_assoc prefix bytes rest, head, body)
