-- ===== src/KeyStore.antt =====
-- The storage engine, src/key_store.
pub mod Types
pub mod Exec
pub mod BlockSize
pub mod Chunk
pub mod Index
pub mod Cache
pub mod Intent
pub mod Files
pub mod Stream
pub mod Verify
pub mod Reassemble
pub mod RoundTrip
pub mod Start
pub mod Cleaning
pub mod Naming
pub mod Remote
pub mod Samples
mod Tests
