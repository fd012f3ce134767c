-- ===== src/Transport/Laws.antt =====
-- Encode, Decode and the reading loop together.
use dps_files.Prelude.{
  drop, take, ◌%◌, zero, ◌∙◌, ap, ℕ, suc, ◌+◌, ◌^◌, ◌≡◌, ◌<◌, ◌≤◌, refl, some, List, [], ◌∷◌, ◌++◌,
  Bytes, length, arith, put_be, get_be, get_be-put_be, length-put_be,
}
use dps_files.FileServer.Frame.{read_full, read_full-append}
use mathlib.Core.List.{append_assoc}
use dps_files.Transport.Coder.{
  with_rest, continue_with, decode_body, Proto, encode, decode, handle_connection, send_all,
}

module _ {Rpc : Type 0} (P : Proto Rpc) where
  -- A message that is encoded to less than 65536 bytes and that the encoding gives back is decoded from
  -- the front of what arrives, and the rest stays.
  pub decode-encode :
      (rpc : Rpc) (out rest : Bytes)
      → P.marshal rpc ≡ some out
      → P.unmarshal out ≡ some rpc
      → length out < 2 ^ 16
      → decode P (put_be 2 (length out) ++ out ++ rest) ≡ some (rpc, rest)
  unfolding decode decode_body with_rest
  decode-encode rpc out rest m u h =
      let header = put_be 2 (length out) in
      let head =
        read_full-append 2 header (out ++ rest) (omega (arith, length-put_be 2 (length out))) in
      let body =
        read_full-append (get_be header) out rest (get_be-put_be 2 (length out) (omega arith)) in
      ground (arith, append_assoc header out rest, head, body, u)

  -- The message survives the coder.
  pub record IsCodable (rpc : Rpc) : Type 0 where
    pub out : Bytes
    pub marshalled : P.marshal rpc ≡ some out
    pub unmarshalled : P.unmarshal out ≡ some rpc
    pub short : length out < 2 ^ 16

  abbrev pub AllCodable : List Rpc → Type 0
  AllCodable [] = Unit {0}
  AllCodable (rpc ∷ rpcs) = IsCodable rpc × AllCodable rpcs

  handle_connection-nil : (fuel : ℕ) → handle_connection P fuel [] ≡ []
  unfolding handle_connection continue_with decode decode_body with_rest read_full
  handle_connection-nil zero = refl
  handle_connection-nil (suc fuel) = refl

  handle_connection-step :
      (fuel all : ℕ) (rpc : Rpc) (rpcs : List Rpc) (bytes rest : Bytes)
      → all ≡ suc fuel
      → decode P bytes ≡ some (rpc, rest)
      → handle_connection P fuel rest ≡ rpcs
      → handle_connection P all bytes ≡ rpc ∷ rpcs
  unfolding handle_connection continue_with
  handle_connection-step fuel all rpc rpcs bytes rest a d h =
      ap (λ (k : ℕ). handle_connection P k bytes) a ∙ rw (d, h) refl

  -- Messages that are sent one after the other over a connection, each of which is encoded to less than
  -- 65536 bytes and given back by the encoding, are received as they were sent, all of them and in order,
  -- with any fuel from their number on.
  pub handle_connection-send_all :
      (more : ℕ) (rpcs : List Rpc)
      → AllCodable rpcs
      → (sent : Bytes) × (send_all P rpcs ≡ some sent)
        × (handle_connection P (length rpcs + more) sent ≡ rpcs)
  unfolding send_all encode
  handle_connection-send_all more [] h = ([], refl, handle_connection-nil (0 + more))
  handle_connection-send_all more (rpc ∷ rpcs) (c, h) =
      let (rest, sent, received) = handle_connection-send_all more rpcs h in
      let first = put_be 2 (length c.out) ++ c.out in
      (
        first ++ rest,
        ground (arith, c.marshalled, sent),
        handle_connection-step (length rpcs + more) (suc (length rpcs) + more) rpc rpcs
            (first ++ rest) rest (omega arith)
            (decode-encode rpc c.out rest c.marshalled c.unmarshalled c.short) received,
      )

  length_read : (n : ℕ) → get_be (put_be 2 n) ≡ n % 2 ^ 16
  unfolding get_be put_be
  length_read n = omega arith

  -- Encode cuts the length of a message to 16 bits: whatever is encoded, Decode hands to the decoding only
  -- as many of its bytes as the length has modulo 65536, and leaves the others on the connection.
  pub decode_cut :
      (rpc : Rpc) (out : Bytes)
      → P.marshal rpc ≡ some out
      → (sent : Bytes) × (encode P rpc ≡ some sent)
        × (decode P sent
            ≡ with_rest P
                (P.unmarshal (take (length out % 2 ^ 16) out))
                (drop (length out % 2 ^ 16) out))
  unfolding encode decode decode_body read_full
  decode_cut rpc out m =
      let header = put_be 2 (length out) in
      let head = read_full-append 2 header out (omega (arith, length-put_be 2 (length out))) in
      let size = length_read (length out) in
      let enough : length out % 2 ^ 16 ≤ length out = omega arith in
      (header ++ out, ground (arith, m), ground (arith, head, size, enough))
