-- ===== src/Fs.antt =====
-- `filesystem_i` of src/webfuse/filesystem/filesystem_i.hpp: the operations of a file system, on
-- whatever state `S` it keeps. An argument that is filled by reference is passed in and returned; an
-- `int` argument, a mode, an id and a handle are bit patterns; a path is its bytes.
pub mod Empty
pub mod Remote
pub mod Contract
pub mod Lost
pub mod Statistics
use webfuse.Base.{ℕ, ◌-◌, ◌^◌, List, Bool, Option}
use webfuse.Base.Int.{ℤ}
use webfuse.Message.Bytes.{Bytes}
use webfuse.Message.Data.{Timespec, Stat, Statvfs}

-- `invalid_handle`, which is `static_cast<uint64_t>(-1)`.
abbrev pub invalid_handle : ℕ
invalid_handle = 2 ^ 64 - 1

-- An operation with a result, and one that fills a buffer too.
abbrev pub Op : Type 0 → Type 0
Op S = S → ℤ × S

abbrev pub OpFill : Type 0 → Type 0 → Type 0
OpFill B S = B → S → ℤ × B × S

-- `open_file` is `open` of the source. Of these operations only `symlink` and
-- `get_credentials` may throw, which is none.
pub record FilesystemI (S : Type 0) : Type 0 where
  pub access : Bytes → ℕ → Op S
  pub getattr : Bytes → OpFill Stat S
  pub readlink : Bytes → OpFill Bytes S
  pub symlink : Bytes → Bytes → S → Option ℤ × S
  pub link : Bytes → Bytes → Op S
  pub rename : Bytes → Bytes → ℕ → Op S
  pub chmod : Bytes → ℕ → Op S
  pub chown : Bytes → ℕ → ℕ → Op S
  pub truncate : Bytes → ℕ → ℕ → Op S
  pub fsync : Bytes → Bool → ℕ → Op S
  pub utimens : Bytes → Timespec → Timespec → ℕ → Op S
  pub open_file : Bytes → ℕ → OpFill ℕ S
  pub mknod : Bytes → ℕ → ℕ → Op S
  pub create : Bytes → ℕ → OpFill ℕ S
  pub release : Bytes → ℕ → Op S
  pub unlink : Bytes → Op S
  pub read : Bytes → ℕ → ℕ → OpFill Bytes S
  pub write : Bytes → Bytes → ℕ → ℕ → Op S
  pub mkdir : Bytes → ℕ → Op S
  pub readdir : Bytes → OpFill (List Bytes) S
  pub rmdir : Bytes → Op S
  pub statfs : Bytes → OpFill Statvfs S
  pub get_credentials : S → Option Bytes × S
