-- ===== src/Chain.antt =====
-- The block chain: src/impl/block.go, block_data.go and utils.go, and cmd/chain/main.go.
pub mod Block
pub mod Laws
mod Tests
