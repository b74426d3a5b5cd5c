-- ===== src/Examples.antt =====
-- The programs under examples/ that have a logic of their own on top of the library.
pub mod Chat
pub mod Discovery
pub mod Regions
pub mod TcpServer
pub mod Persistence
pub mod Trade
