-- ===== src/Message.antt =====
-- The messages of the webfuse2 protocol.
pub mod Bytes
pub mod Types
pub mod Writer
pub mod Reader
pub mod Data
