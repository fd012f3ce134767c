-- ===== src/KeyStore/BlockSize/Bounds.antt =====
-- CalculateBlockSize of config.go and the number of blocks.
use dps_files.Prelude.{
  mul-le-mul_right, ℕ, zero, suc, ◌+◌, ◌-◌, ◌*◌, ◌/◌, ◌^◌, ◌≤◌, ◌<◌, ◌≡◌, refl, ap, ◌⊎◌, inl, inr,
  Bool-cases, ltb, ltb→lt, lt→ltb, subst, arith,
}
use native.Mathlib.Decide.{dec_lt}
use native.Mathlib.Nat.{pow-suc, div-mul-le_self, lt-div-mul-add, le_trans, mod-eq_of_lt}
use dps_files.KeyStore.Types.{min_block_size, max_block_size, target_blocks}
use dps_files.KeyStore.BlockSize.{power_from, nearest_power, calculate_block_size, count_blocks}

-- The size lies in the bounds of the source; below the minimum it is the file's own.
pub calculate_block_size_bounds :
    (size : ℕ)
    → 0 < size
    → (0 < calculate_block_size size)
      × (calculate_block_size size ≤ max_block_size)
      × (size < min_block_size → calculate_block_size size ≡ size)
      × (min_block_size ≤ size → min_block_size ≤ calculate_block_size size)
unfolding calculate_block_size
calculate_block_size_bounds size h = ground arith

abbrev pub IsPower : ℕ → Type 0
IsPower n = (k : ℕ) × (n ≡ 2 ^ k)

power_from-IsPower : (fuel k size : ℕ) → IsPower (power_from fuel (2 ^ k) size)
unfolding power_from
power_from-IsPower zero k size = (k, refl)
power_from-IsPower (suc fuel) k size = elim (Bool-cases (ltb (size * size) (2 * (2 ^ k * 2 ^ k)))) [
  | inl e ↦ rw e (k, refl)
  | inr e ↦ rw e (
      subst (λ (p : ℕ). IsPower (power_from fuel p size)) {x = 2 ^ suc k} {y = 2 * 2 ^ k}
        (omega (arith, pow-suc 2 k)) (power_from-IsPower fuel (suc k) size))
]

square_of_lt : (a b : ℕ) → a < b → a * a < 2 * (b * b)
square_of_lt a b h = grind arith

-- The power is more than the size over √2, given fuel for it.
power_from_above :
    (fuel power size : ℕ)
    → 0 < power
    → size < 2 ^ fuel * power
    → size * size < 2 * (power_from fuel power size * power_from fuel power size)
unfolding power_from
power_from_above zero power size p h = square_of_lt size power (omega arith)
power_from_above (suc fuel) power size p h =
    elim (Bool-cases (ltb (size * size) (2 * (power * power)))) [
      | inl e ↦ rw e (ltb→lt _ _ e)
      | inr e ↦ rw e (
          power_from_above fuel (2 * power) size (omega arith)
            (omega (arith, ap (λ (t : ℕ). t * power) (pow-suc 2 fuel))))
    ]

square_mono : (a b : ℕ) → a ≤ b → a * a ≤ b * b
square_mono a b h = grind arith

-- A number below √2 times another is below one and a half times it.
under_half_more : (a b : ℕ) → a * a < 2 * (b * b) → 2 * a < 3 * b
under_half_more a b h = elim (dec_lt (2 * a) (3 * b)) [
  | yes p ↦ p
  | no p ↦ absurd (omega (arith, square_mono (3 * b) (2 * a) (omega arith)))
]

nearest_power_above : (size : ℕ) → size < 2 ^ 64 → 2 * size < 3 * nearest_power size
unfolding nearest_power
nearest_power_above size h =
    under_half_more size _ (power_from_above 64 1 size (omega arith) (omega arith))

nearest_power-IsPower : (size : ℕ) → IsPower (nearest_power size)
unfolding nearest_power
nearest_power-IsPower size = power_from-IsPower 64 0 size

-- The regular sizing and the promotion both give a power of two, or a bound.
block_size_cases :
    (size : ℕ)
    → min_block_size ≤ size
    → size < 2 ^ 64
    → (calculate_block_size size ≡ min_block_size)
      ⊎ ((calculate_block_size size ≡ max_block_size)
          ⊎ (calculate_block_size size ≡ nearest_power (size / 1000)))
unfolding calculate_block_size
block_size_cases size h b = ground arith

-- From the minimum size on, blocks are powers of two.
pub calculate_block_size-IsPower :
    (size : ℕ) → min_block_size ≤ size → size < 2 ^ 64 → IsPower (calculate_block_size size)
calculate_block_size-IsPower size h b = elim (block_size_cases size h b) [
  | inl e ↦ (16, e)
  | inr (inl e) ↦ (22, e)
  | inr (inr e) ↦ rw e (nearest_power-IsPower (size / 1000))
]

-- A block is the largest one, or at least two thirds of a thousandth of the file.
block_size_above :
    (size : ℕ)
    → min_block_size ≤ size
    → size < 2 ^ 64
    → (calculate_block_size size ≡ max_block_size)
      ⊎ (2 * (size / 1000) < 3 * calculate_block_size size)
unfolding calculate_block_size
block_size_above size h b = ground (arith, nearest_power_above (size / 1000))

lt_of_mul-lt : (a b c : ℕ) → a * c < b * c → a < b
lt_of_mul-lt a b c h = elim (dec_lt a b) [
  | yes p ↦ p
  | no p ↦ absurd (omega (arith, mul-le-mul_right b a c (omega arith)))
]

abbrev IsCeil : ℕ → ℕ → ℕ → Type 0
IsCeil size block q = (size ≤ q * block) × ((q - 1) * block < size) × (0 < q)

round_up-IsCeil :
    (size block q : ℕ)
    → 0 < size
    → q * block ≤ size + block - 1
    → size + block - 1 < q * block + block
    → IsCeil size block q
round_up-IsCeil size block zero p a c = absurd (omega arith)
round_up-IsCeil size block (suc q) p a c =
    let e : suc q - 1 ≡ q = omega arith in rw e (omega arith, omega arith, omega arith)

quotient-IsCeil :
    (size block : ℕ) → 0 < size → 0 < block → IsCeil size block ((size + block - 1) / block)
quotient-IsCeil size block p b =
    round_up-IsCeil size block _ p (div-mul-le_self (size + block - 1) block) (lt-div-mul-add b)

-- A number of blocks that covers the file bounds the quotient.
quotient-le :
    (size block k : ℕ) → 0 < size → 0 < block → size ≤ k * block → (size + block - 1) / block ≤ k
quotient-le size block k p b h =
    let (_, under, _) = quotient-IsCeil size block p b in
    let less = lt_of_mul-lt _ k block (le_trans under h) in omega arith

covered_by :
    (size : ℕ)
    → 0 < size
    → size ≤ 2 ^ 53
    → (size ≤ 2 ^ 31 * calculate_block_size size)
      × (size ≤ target_blocks * max_block_size → size ≤ 1501 * calculate_block_size size)
covered_by size p h = elim (dec_lt size min_block_size) [
  | yes l ↦ let e = (calculate_block_size_bounds size p).2 l in (omega arith, omega arith)
  | no l ↦
      let m = (calculate_block_size_bounds size p).3 (omega arith) in
      elim (block_size_above size (omega arith) (omega arith)) [
        | inl e ↦ (omega arith, omega arith)
        | inr e ↦ (omega arith, omega arith)
      ]
]

count_blocks_lem :
    (size block : ℕ)
    → 0 < block
    → block ≤ max_block_size
    → size ≤ 2 ^ 53
    → (size + block - 1) / block < 2 ^ 32
    → count_blocks size block ≡ (size + block - 1) / block
unfolding count_blocks
count_blocks_lem size block b m h q = rw (
  lt→ltb 0 block b,
  mod-eq_of_lt {n = size + block - 1} {m = 2 ^ 64} (omega arith),
  mod-eq_of_lt q,
)

-- For files of up to 2 ^ 53 bytes the number of blocks is the size over the block size, rounded up:
-- that many blocks cover the file, one block fewer would not, and there is at least one.
pub count_blocks_exact :
    (size : ℕ)
    → 0 < size
    → size ≤ 2 ^ 53
    → let block = calculate_block_size size in
      (size ≤ count_blocks size block * block)
      × ((count_blocks size block - 1) * block < size)
      × (0 < count_blocks size block)
count_blocks_exact size p h =
    let block = calculate_block_size size in
    let (b, m, _, _) = calculate_block_size_bounds size p in
    let q = quotient-le size block (2 ^ 31) p b (covered_by size p h).0 in
    rw (count_blocks_lem size block b m h (omega arith)) (quotient-IsCeil size block p b)

-- A file of 1 byte up to the target number of largest blocks (about 4 GB) has at most 1501 blocks,
-- half as many again as the target.
pub count_blocks-near_target :
    (size : ℕ)
    → 0 < size
    → size ≤ target_blocks * max_block_size
    → count_blocks size (calculate_block_size size) ≤ 1501
count_blocks-near_target size p h =
    let block = calculate_block_size size in
    let (b, m, _, _) = calculate_block_size_bounds size p in
    let q = quotient-le size block 1501 p b ((covered_by size p (omega arith)).1 h) in
    rw (count_blocks_lem size block b m (omega arith) (omega arith)) q

pub count_blocks-lt : (size block : ℕ) → count_blocks size block < 2 ^ 32
unfolding count_blocks
count_blocks-lt size block = ground arith

pub calculate_block_size-zero : calculate_block_size 0 ≡ 0
unfolding calculate_block_size
calculate_block_size-zero = refl

-- A file that is not empty gets a block size that is not 0 and at most 2 ^ 22; it is the file's own
-- size or at least 2 ^ 16.
pub calculate_block_size-range :
    (size : ℕ)
    → 0 < size
    → let block = calculate_block_size size in
      (0 < block) × (block ≤ max_block_size) × ((block ≡ size) ⊎ (min_block_size ≤ block))
calculate_block_size-range size h =
    let (pos, most, small, large) = calculate_block_size_bounds size h in
    (
      pos,
      most,
      elim (dec_lt size min_block_size) [
        | yes b ↦ inl (small b)
        | no b ↦ inr (large (omega arith))
      ],
    )
