-- ===== src/Chain/Block.antt =====
-- Blocks, their hashes, and the operations of `Blockchain` in cmd/chain/main.go.
use dps_files.Prelude.{
  ℕ, suc, ◌+◌, ◌^◌, ◌%◌, Bool, false, Option, none, some, List, [], ◌∷◌, ◌++◌, Bytes, text, eqb,
  ◌==◌, list_eq, nat_eq, if◌then◌else◌,
}

pub record BlockData : Type 0 where
  pub hash : Bytes
  pub data_bytes : Bytes
  pub iv : Bytes

pub record Block : Type 0 where
  pub hash : Bytes
  pub prev_hash : Bytes
  pub index : ℕ
  pub block_data : BlockData
  pub time : ℕ
  pub nonce : ℕ

-- The encoding of package gob, which may fail, and the hash functions.
pub record Digests : Type 0 where
  pub encode : Block → Option Bytes
  pub sha1 : Bytes → Bytes
  pub sha256 : Bytes → Bytes
  pub sha512 : Bytes → Bytes

-- why ValidateChain refuses, and the number of the block
pub data ChainError : Type 0 where
  prev_hash_mismatch : ℕ → ChainError
  hash_verification_failed : ℕ → ChainError

-- `tmp.Hash = nil`
abbrev pub unhashed : Block → Block
unhashed b = record b { hash = [] }

module _ (D : Digests) where
  -- ComputeShaHash
  unfoldable pub compute_sha_hash : Bytes → ℕ → Bytes
  compute_sha_hash obj size =
      if eqb size 20
      then D.sha1 obj
      else if eqb size 32
      then D.sha256 obj
      else if eqb size 64
      then D.sha512 obj
      else D.sha1 obj

  -- CalculateHash of a block
  unfoldable pub calculate_hash : Block → ℕ → Option Bytes
  unfolding compute_sha_hash
  calculate_hash b size = elim (D.encode (unhashed b)) [
    | none ↦ none
    | some encoded ↦ some (compute_sha_hash encoded size)
  ]

  -- ValidateHash
  unfoldable pub validate_hash : Block → ℕ → Bool
  unfolding calculate_hash
  validate_hash b size = elim (calculate_hash b size) [
    | none ↦ false
    | some expected ↦ b.hash == expected
  ]

  -- hashBlock; when the encoding fails, the hash stays nil
  unfoldable pub hash_block : Block → Bytes → Block
  unfolding calculate_hash compute_sha_hash
  hash_block b bytes =
      let filled = record b {
        block_data = record { hash = compute_sha_hash bytes 20; data_bytes = bytes; iv = [] };
      } in
      elim (calculate_hash filled 32) [ none ↦ filled | some hash ↦ record filled { hash = hash } ]

  -- NewBlock, with the nonce and the time that it takes
  unfoldable pub new_block : ℕ → ℕ → ℕ → Bytes → Bytes → Block
  unfolding hash_block
  new_block nonce time index bytes prev =
      hash_block
        (record {
          hash = [];
          prev_hash = prev;
          index = index;
          block_data = record { hash = []; data_bytes = []; iv = [] };
          time = time;
          nonce = nonce;
        })
        bytes

  -- the loop of ValidateChain, from block number i on
  unfoldable pub validate_from : ℕ → Block → List Block → Option ChainError
  unfolding validate_hash
  validate_from i previous [] = none
  validate_from i previous (current ∷ blocks) =
      let rest = validate_from (suc i) current blocks in
      if current.prev_hash == previous.hash
      then (if validate_hash current 32 then rest else some (hash_verification_failed i))
      else some (prev_hash_mismatch i)

  -- ValidateChain
  unfoldable pub validate_chain : List Block → Option ChainError
  unfolding validate_from
  validate_chain [] = none
  validate_chain (first ∷ blocks) = validate_from 1 first blocks

  -- `bc.blocks[len(bc.blocks)-1]`, which a chain has
  unfoldable pub last_block : Block → List Block → Block
  last_block first [] = first
  last_block first (b ∷ blocks) = last_block b blocks

  -- Append, to the chain `first ∷ blocks`; the nonce can be had
  unfoldable pub append : ℕ → ℕ → Block → List Block → Bytes → List Block
  unfolding last_block new_block
  append nonce time first blocks bytes =
      let previous = last_block first blocks in
      first ∷ blocks
      ++ new_block nonce time ((previous.index + 1) % 2 ^ 64) bytes previous.hash ∷ []

  -- InitializeBlockchain
  unfoldable pub initialize_blockchain : ℕ → ℕ → List Block
  unfolding new_block
  initialize_blockchain nonce time =
      new_block nonce time 0 (text "Genesis Block Data") (text "genesis_hash") ∷ []
