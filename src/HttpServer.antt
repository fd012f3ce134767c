-- ===== src/HttpServer.antt =====
-- The HTTP file server, cmd/httpserver/handlers.go: byte ranges, the trimming writer, the handlers.
pub mod Range
pub mod Trim
pub mod Handlers
pub mod Laws
mod Tests
