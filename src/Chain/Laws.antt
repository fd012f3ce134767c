-- ===== src/Chain/Laws.antt =====
-- ValidateChain and Append of cmd/chain/main.go.
use dps_files.Prelude.{
  ◌&&◌, ◌==◌, ◌^◌, ◌%◌, ◌+◌, ℕ, suc, ◌≡◌, ◌≢◌, ◌⊎◌, inl, inr, refl, ap, ◌∙◌, sym, Bool, true, none,
  some, List, [], ◌∷◌, ◌++◌, Bytes, length, Bool-cases, Option-cases, ==→eq, ==_refl, arith,
  list_eq, nat_eq,
}
use dps_files.Chain.Block.{
  unhashed, compute_sha_hash, Block, calculate_hash, new_block, append, hash_block, last_block,
  validate_chain, validate_from, validate_hash, Digests,
}

module _ (D : Digests) where
  hash_block-validate_hash :
      (b : Block) (bytes : Bytes)
      → ((c : Block) → D.encode c ≢ none)
      → validate_hash D (hash_block D b bytes) 32 ≡ true
  unfolding validate_hash hash_block calculate_hash compute_sha_hash
  hash_block-validate_hash b bytes total =
      let filled = record b {
        block_data = record { hash = compute_sha_hash D bytes 20; data_bytes = bytes; iv = [] };
      } in
      elim (Option-cases (D.encode (unhashed filled))) [
        | inl n ↦ absurd (total (unhashed filled) n)
        | inr (encoded, e) ↦ ground (arith, e, ==_refl (D.sha256 encoded))
      ]

  hash_block-prev_hash :
      (b : Block) (bytes : Bytes) → (hash_block D b bytes).prev_hash ≡ b.prev_hash
  unfolding hash_block calculate_hash
  hash_block-prev_hash b bytes = ground arith

  validate_from-append :
      (i : ℕ) (first b : Block) (blocks : List Block)
      → validate_from D i first blocks ≡ none
      → b.prev_hash ≡ (last_block D first blocks).hash
      → validate_hash D b 32 ≡ true
      → validate_from D i first (blocks ++ b ∷ []) ≡ none
  unfolding validate_from last_block
  validate_from-append i first b [] v p h = ground (arith, p, h, ==_refl first.hash)
  validate_from-append i first b (c ∷ blocks) v p h =
      ground (arith, v, validate_from-append (suc i) c b blocks)

  -- Append keeps a chain valid, whatever the nonce, the time and the data, if blocks can be encoded.
  pub append-validate_chain :
      (nonce time : ℕ) (first : Block) (blocks : List Block) (bytes : Bytes)
      → ((c : Block) → D.encode c ≢ none)
      → validate_chain D (first ∷ blocks) ≡ none
      → validate_chain D (append D nonce time first blocks bytes) ≡ none
  unfolding validate_chain append new_block
  append-validate_chain nonce time first blocks bytes total v =
      let previous = last_block D first blocks in
      let fresh : Block = record {
        hash = [];
        prev_hash = previous.hash;
        index = (previous.index + 1) % 2 ^ 64;
        block_data = record { hash = []; data_bytes = []; iv = [] };
        time = time;
        nonce = nonce;
      } in
      validate_from-append 1 first (hash_block D fresh bytes) blocks v
        (hash_block-prev_hash fresh bytes) (hash_block-validate_hash fresh bytes total)

  -- Two different blocks whose hashes are the same.
  abbrev pub Collision : Type 0
  Collision =
      (b : Block) × (c : Block) × (unhashed b ≢ unhashed c)
      × (calculate_hash D b 32 ≡ calculate_hash D c 32)

  validate_hash-calculate_hash :
      (b : Block) → validate_hash D b 32 ≡ true → calculate_hash D b 32 ≡ some b.hash
  unfolding validate_hash
  validate_hash-calculate_hash b v = elim (Option-cases (calculate_hash D b 32)) [
    | inl n ↦ absurd (ground (arith, v, n))
    | inr (h, e) ↦ ground (arith, v, e, ==→eq b.hash h)
  ]

  -- Do two blocks agree on everything but their hash?
  alike : Block → Block → Bool
  alike b c =
      b.prev_hash == c.prev_hash
      && b.index == c.index
      && b.block_data.hash == c.block_data.hash
      && b.block_data.data_bytes == c.block_data.data_bytes
      && b.block_data.iv == c.block_data.iv
      && b.time == c.time
      && b.nonce == c.nonce

  alike-unhashed : (b c : Block) → alike b c ≡ true → unhashed b ≡ unhashed c
  unfolding alike
  alike-unhashed b c h = ground (
    arith,
    h,
    ==→eq b.prev_hash c.prev_hash,
    ==→eq b.block_data.hash c.block_data.hash,
    ==→eq b.block_data.data_bytes c.block_data.data_bytes,
    ==→eq b.block_data.iv c.block_data.iv,
  )

  unhashed-alike : (b c : Block) → unhashed b ≡ unhashed c → alike b c ≡ true
  unfolding alike
  unhashed-alike b c h =
      let e0 : b.prev_hash ≡ c.prev_hash = ap (λ (x : Block). x.prev_hash) h in
      let e1 : b.index ≡ c.index = ap (λ (x : Block). x.index) h in
      let e2 : b.block_data.hash ≡ c.block_data.hash = ap (λ (x : Block). x.block_data.hash) h in
      let e3 : b.block_data.data_bytes ≡ c.block_data.data_bytes =
        ap (λ (x : Block). x.block_data.data_bytes) h in
      let e4 : b.block_data.iv ≡ c.block_data.iv = ap (λ (x : Block). x.block_data.iv) h in
      let e5 : b.time ≡ c.time = ap (λ (x : Block). x.time) h in
      let e6 : b.nonce ≡ c.nonce = ap (λ (x : Block). x.nonce) h in
      ground (
        arith,
        e0,
        e1,
        e2,
        e3,
        e4,
        e5,
        e6,
        ==_refl c.prev_hash,
        ==_refl c.index,
        ==_refl c.block_data.hash,
        ==_refl c.block_data.data_bytes,
        ==_refl c.block_data.iv,
        ==_refl c.time,
        ==_refl c.nonce,
      )

  -- Blocks with the same stored and verified hash are the same, or collide.
  same_hash :
      (b c : Block)
      → validate_hash D b 32 ≡ true
      → validate_hash D c 32 ≡ true
      → b.hash ≡ c.hash
      → (b ≡ c) ⊎ Collision
  unfolding validate_hash
  same_hash b c v w h =
      let p = validate_hash-calculate_hash b v in
      let q = validate_hash-calculate_hash c w in
      elim (Bool-cases (alike b c)) [
        | inl e ↦
            let same = alike-unhashed b c e in
            inl (
              ap (λ (x : Block). record x { hash = b.hash }) same
              ∙ ap (λ (x : Bytes). record c { hash = x }) h)
        | inr n ↦
            inr
              (b, c, (λ e. absurd (ground (arith, n, unhashed-alike b c e))), p ∙ ap some h ∙ sym q)
      ]

  -- The hash of the last block determines the chain: of two chains of the same length that validate and
  -- end in the same hash, all blocks after the first are the same and the first has the same hash, or
  -- two different blocks have the same SHA-256 hash.
  validate_from-determined :
      (i j : ℕ) (first other : Block) (blocks others : List Block)
      → length blocks ≡ length others
      → validate_from D i first blocks ≡ none
      → validate_from D j other others ≡ none
      → (last_block D first blocks).hash ≡ (last_block D other others).hash
      → ((first.hash ≡ other.hash) × (blocks ≡ others)) ⊎ Collision
  unfolding validate_from last_block
  validate_from-determined i j first other [] [] n v w h = inl (h, refl)
  validate_from-determined i j first other [] (c ∷ others) n v w h = absurd (omega arith)
  validate_from-determined i j first other (b ∷ blocks) [] n v w h = absurd (omega arith)
  validate_from-determined i j first other (b ∷ blocks) (c ∷ others) n v w h =
      let ih =
        validate_from-determined (suc i) (suc j) b c blocks others (omega arith) (ground (arith, v))
          (ground (arith, w)) h in
      elim ih [
        | inr found ↦ inr found
        | inl (hash, rest) ↦ elim (same_hash b c (ground (arith, v)) (ground (arith, w)) hash) [
          | inr found ↦ inr found
          | inl same ↦
              let left : b.prev_hash ≡ first.hash =
                ground (arith, v, ==→eq b.prev_hash first.hash) in
              let right : c.prev_hash ≡ other.hash =
                ground (arith, w, ==→eq c.prev_hash other.hash) in
              inl (
                sym left ∙ ap (λ (x : Block). x.prev_hash) same ∙ right,
                ground (arith, same, rest),
              )
        ]
      ]

  -- The hash of the last block determines a valid chain: of two chains of the same length that
  -- ValidateChain accepts and whose last blocks have the same hash, the first blocks have the same hash and
  -- all others are the same, or there are two different blocks with the same SHA-256 hash.
  pub validate_chain-Collision :
      (first other : Block) (blocks others : List Block)
      → length blocks ≡ length others
      → validate_chain D (first ∷ blocks) ≡ none
      → validate_chain D (other ∷ others) ≡ none
      → (last_block D first blocks).hash ≡ (last_block D other others).hash
      → ((first.hash ≡ other.hash) × (blocks ≡ others)) ⊎ Collision
  unfolding validate_chain
  validate_chain-Collision first other blocks others =
      validate_from-determined 1 1 first other blocks others

  -- ValidateChain does not look into the first block: one with any content but the same hash in its place
  -- is accepted too.
  pub validate_chain_first :
      (first other : Block) (blocks : List Block)
      → other.hash ≡ first.hash
      → validate_chain D (first ∷ blocks) ≡ none
      → validate_chain D (other ∷ blocks) ≡ none
  unfolding validate_chain validate_from
  validate_chain_first first other [] h v = refl
  validate_chain_first first other (b ∷ blocks) h v = ground (arith, h, v)
