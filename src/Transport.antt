-- ===== src/Transport.antt =====
-- `DefaultCoder` of src/api/transport/encoding.go and the reading loop of tcp.go.
pub mod Coder
pub mod Laws
mod Tests
