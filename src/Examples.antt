-- ===== src/Examples.antt =====
-- The programs under examples.
pub mod Chat
pub mod Upload
pub mod Websocket
pub mod Lines
pub mod Producers
pub mod Compress
pub mod Tunnel
pub mod Routes
