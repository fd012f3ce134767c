-- ===== src/KeyStore/BlockSize.antt =====
-- Block sizes: CalculateBlockSize and promoteCandidateBlockSize of key_store/config.go, and the
-- metadata that metadata.go prepares from them.
pub mod Bounds
use dps_files.Prelude.{
  ℕ, zero, suc, ◌+◌, ◌-◌, ◌*◌, ◌/◌, ◌%◌, ◌^◌, min, max, Bool, Bytes, replicate, length, ltb, leb,
  eqb, if◌then◌else◌,
}
use dps_files.KeyStore.Types.{
  MetaData, uint32, min_block_size, max_block_size, target_blocks, large_file_mx,
  default_file_ttl_seconds, default_permissions,
}

-- The first power of two, from `power` on, whose square is more than half of the square of `size`.
unfoldable pub power_from : ℕ → ℕ → ℕ → ℕ
power_from zero power size = power
power_from (suc fuel) power size =
    let rest = power_from fuel (2 * power) size in
    if ltb (size * size) (2 * (power * power)) then power else rest

-- `uint64(math.Pow(2, math.Round(math.Log2(float64(size)))))`: the exponent k with
-- k - 1/2 ≤ log2 size < k + 1/2, by squares. The callers clamp the result at 2 ^ 22, and up to
-- there the rounding of floats cannot move a logarithm across a half.
unfoldable pub nearest_power : ℕ → ℕ
unfolding power_from
nearest_power size = power_from 64 1 size

unfoldable pub promote_candidate_block_size : ℕ → ℕ → ℕ
promote_candidate_block_size file_size candidate =
    if eqb file_size 0
    then 0
    else if leb file_size max_block_size
    then candidate
    else if ltb (max_block_size * large_file_mx) file_size
    then candidate
    else if leb ((file_size + max_block_size - 1) / max_block_size) target_blocks
    then min (max candidate max_block_size) max_block_size
    else candidate

unfoldable pub calculate_block_size : ℕ → ℕ
unfolding promote_candidate_block_size
calculate_block_size file_size =
    let size = promote_candidate_block_size file_size (nearest_power (file_size / target_blocks)) in
    if eqb file_size 0
    then 0
    else if ltb file_size min_block_size
    then uint32 file_size
    else if ltb size min_block_size
    then min_block_size
    else if ltb max_block_size size
    then max_block_size
    else uint32 size

-- `uint32((size + uint64(block) - 1) / uint64(block))`, where the block size is not 0
unfoldable pub count_blocks : ℕ → ℕ → ℕ
count_blocks size block = if ltb 0 block then uint32 (((size + block - 1) % 2 ^ 64) / block) else 0

-- PrepareMetaDataSecure; `now` is `time.Now().UnixNano()`
unfoldable pub prepare_meta_data_secure : ℕ → Bytes → Bytes → Bytes → MetaData
prepare_meta_data_secure now name bytes signature =
    let size = length bytes in
    let block = calculate_block_size size in
    record {
      file_hash = replicate 32 0;
      total_size = size;
      file_name = name;
      modified = now;
      permissions = default_permissions;
      signature = signature;
      ttl = default_file_ttl_seconds;
      block_size = block;
      total_blocks = count_blocks size block;
    }

-- PrepareMetaData: the signature stays zero.
unfoldable pub prepare_meta_data : ℕ → Bytes → Bytes → MetaData
unfolding prepare_meta_data_secure
prepare_meta_data now name bytes = prepare_meta_data_secure now name bytes (replicate 64 0)
