-- ===== src/Tests.antt =====
-- Sample systems and file systems, tests, and the theorems at concrete inputs.
pub mod Samples
pub mod Machine
mod Mounts
mod Programs
mod Authenticators
mod Whole
mod Calls
mod Buffers
mod Encodings
pub mod Service
mod Interleaved
mod Objects
mod Threads
