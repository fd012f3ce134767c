-- ===== src/KeyStore/RoundTrip.antt =====
-- Storing a file and reading it back: files.go and key_store.go.
pub mod Blocks
pub mod Steps
pub mod Stored
pub mod Commit
pub mod Reassembly
pub mod Laws
pub mod Ranges
pub mod Loading
pub mod Writing
pub mod Loaded
