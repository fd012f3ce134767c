-- ===== src/FileServer.antt =====
-- The TCP file server, cmd/fileserver, and its client, cmd/storage/remote.go.
pub mod Frame
pub mod Server
pub mod Client
pub mod Laws
mod Tests
