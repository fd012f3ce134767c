-- ===== src/Transport/Coder.antt =====
-- The coder puts a length of two bytes before each message; the encoding of a message is a parameter.
use dps_files.Prelude.{
  ℕ, suc, zero, Option, none, some, List, [], ◌∷◌, ◌++◌, Bytes, length, put_be, get_be,
}
use dps_files.FileServer.Frame.{read_full}

-- Package proto: Marshal and Unmarshal.
pub record Proto (Rpc : Type 0) : Type 0 where
  pub marshal : Rpc → Option Bytes
  pub unmarshal : Bytes → Option Rpc

module _ {Rpc : Type 0} (P : Proto Rpc) where
  -- Encode
  unfoldable pub encode : Rpc → Option Bytes
  encode rpc = elim (P.marshal rpc) [ none ↦ none | some out ↦ some (put_be 2 (length out) ++ out) ]

  unfoldable pub with_rest : Option Rpc → Bytes → Option (Rpc × Bytes)
  with_rest none rest = none
  with_rest (some rpc) rest = some (rpc, rest)

  unfoldable pub decode_body : Option (Bytes × Bytes) → Option (Rpc × Bytes)
  unfolding with_rest
  decode_body none = none
  decode_body (some (message, rest)) = with_rest (P.unmarshal message) rest

  -- Decode: the message, and what is left to read
  unfoldable pub decode : Bytes → Option (Rpc × Bytes)
  unfolding decode_body
  decode reader = elim (read_full 2 reader) [
    | none ↦ none
    | some (header, rest) ↦ decode_body (read_full (get_be header) rest)
  ]

  unfoldable pub continue_with : (Bytes → List Rpc) → Option (Rpc × Bytes) → List Rpc
  continue_with next none = []
  continue_with next (some (rpc, rest)) = rpc ∷ next rest

  -- The loop of handleConnection: what it passes on of the bytes that arrive before the connection is
  -- closed. The fuel bounds the number of messages.
  unfoldable pub handle_connection : ℕ → Bytes → List Rpc
  unfolding continue_with
  handle_connection zero reader = []
  handle_connection (suc fuel) reader = continue_with (handle_connection fuel) (decode reader)

  -- Send for each message in turn: what arrives at the other end, if all can be encoded
  unfoldable pub send_all : List Rpc → Option Bytes
  send_all [] = some []
  send_all (rpc ∷ rpcs) = elim (encode rpc) [
    | none ↦ none
    | some first ↦ elim (send_all rpcs) [ none ↦ none | some rest ↦ some (first ++ rest) ]
  ]
