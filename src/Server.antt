-- ===== src/Server.antt =====
-- The tunnel service, pkg/muxtunnel.go.
pub mod State
pub mod Sound
pub mod System
pub mod Pools
pub mod View
pub mod Proxy
pub mod Ports
pub mod Deaf
pub mod Story
pub mod Admission
pub mod Idle
pub mod Access
pub mod Register
pub mod Stream
mod Tests
