-- ===== src/Storage/View.antt =====
-- The size of a file's last chunk as cmd/storage prints it: view.go and store.go.
pub mod LastChunk
use dps_files.Prelude.{true, false, ℕ, ◌+◌, ◌-◌, ◌*◌, ◌%◌, ◌^◌, ◌||◌, eqb, leb, if◌then◌else◌}
use dps_files.KeyStore.Types.{MetaData, uint32}

-- calculateLastChunkSize; the product of two numbers of 32 bits fits into 64.
unfoldable pub calculate_last_chunk_size : MetaData → ℕ
calculate_last_chunk_size md =
    let full_blocks = md.block_size * (md.total_blocks - 1) in
    if eqb md.total_blocks 0 || eqb md.block_size 0
    then 0
    else if eqb md.total_blocks 1
    then md.total_size
    else if leb md.total_size full_blocks
    then md.total_size
    else md.total_size - full_blocks

-- The field "Last chunk size" of executeStoreTargets, for a file that has chunks: the product is one
-- of 32 bits, the difference one of 64.
unfoldable pub printed_last_chunk : MetaData → ℕ
printed_last_chunk md =
    (md.total_size + 2 ^ 64 - uint32 (md.block_size * (md.total_blocks - 1))) % 2 ^ 64
