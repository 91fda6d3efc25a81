-- ===== src/Rpc.antt =====
-- Requests and responses between the service's `filesystem` and the provider's file system.
pub mod Decode
pub mod Exchange
pub mod Values
pub mod Paths
pub mod Files
pub mod Buffers
pub mod Read
