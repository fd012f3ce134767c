-- ===== src/Transport/Tests.antt =====
-- The theorems about the coder at concrete inputs.
use dps_files.Prelude.{◌+◌, ◌≡◌, refl, some, List, [], ◌∷◌, Bytes, text, arith}
use dps_files.Transport.Coder.{Proto, send_all, handle_connection}
use dps_files.Transport.Laws.{handle_connection-send_all}

-- Messages that are their own encoding.
abbrev plain : Proto Bytes
plain = record { marshal = λ rpc. some rpc; unmarshal = λ out. some out }

abbrev greetings : List Bytes
greetings = text "hi" ∷ text "there" ∷ []

handle_connection-send_all_example :
    (sent : Bytes) × (send_all plain greetings ≡ some sent)
    × (handle_connection plain (2 + 1) sent ≡ greetings)
handle_connection-send_all_example = handle_connection-send_all plain 1 greetings (
  record { out = text "hi"; marshalled = refl; unmarshalled = refl; short = omega arith },
  (record { out = text "there"; marshalled = refl; unmarshalled = refl; short = omega arith }, tt),
)
