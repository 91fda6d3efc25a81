-- ===== src/Flags.antt =====
-- Values that differ between systems, and their fixed encoding in messages.
pub mod ErrnoName
pub mod Cases
pub mod Platform
pub mod Status
pub mod OpenFlags
pub mod FileMode
pub mod RenameFlags
pub mod AccessMode
