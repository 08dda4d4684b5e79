-- ===== src/Server.antt =====
-- g2mirror-server (src/bin/g2mirror-server.rs): the gateway between devices and session sockets.
pub mod Config
pub mod Protocol
pub mod Monitor
pub mod Launch
pub mod Device
pub mod Auth
pub mod Guard
pub mod Splice
pub mod AddToken
mod Examples
mod Tests
