-- ===== src/Chain/Tests.antt =====
-- The theorems about chains at concrete inputs.
use dps_files.Chain.Laws.{validate_chain-Collision, Collision, append-validate_chain}
use dps_files.Prelude.{◌≡◌, ◌⊎◌, refl, none, some, [], ◌∷◌, text, list_eq, nat_eq}
use dps_files.Chain.Block.{Digests, Block, append, validate_chain}

-- An encoding by the nonce, and hash functions that change nothing.
abbrev plain : Digests
plain = record {
  encode = λ b. some (b.nonce ∷ b.block_data.data_bytes);
  sha1 = λ bytes. bytes;
  sha256 = λ bytes. bytes;
  sha512 = λ bytes. bytes;
}

abbrev genesis : Block
genesis = record {
  hash = 1 ∷ [];
  prev_hash = [];
  index = 0;
  block_data = record { hash = []; data_bytes = []; iv = [] };
  time = 0;
  nonce = 1;
}

abbrev second : Block
second = record genesis { hash = 2 ∷ []; prev_hash = 1 ∷ []; index = 1; nonce = 2 }

append-validate_chain_example :
    validate_chain plain (append plain 3 0 genesis (second ∷ []) (text "hi")) ≡ none
unfolding validate_chain list_eq nat_eq
append-validate_chain_example =
    append-validate_chain plain 3 0 genesis (second ∷ []) (text "hi") (λ c e. cc) refl

validate_chain-Collision_example :
    ((genesis.hash ≡ genesis.hash) × (second ∷ [] ≡ second ∷ [])) ⊎ Collision plain
unfolding validate_chain list_eq nat_eq
validate_chain-Collision_example =
    validate_chain-Collision plain genesis genesis (second ∷ []) (second ∷ []) refl refl refl refl
