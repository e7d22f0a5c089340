-- ===== src/Sniff.antt =====
-- How a frontend finds the instance that a connection asks for: getSNITarget and the decoders of
-- pkg/muxtunnel.go.
pub mod Cursor
pub mod Tls
pub mod Preamble
pub mod Connect
pub mod Target
mod Tests
