-- ===== src/Local/Calls.antt =====
-- The system calls that the provider program makes, as operations on a state `W` of the system, which has
-- `errno`. A result is an `int` or a `ssize_t`, a path is its bytes before the first zero, and flags,
-- modes, sizes and offsets are bit patterns.
use webfuse.Base.{ℕ, Option}
use webfuse.Base.Int.{ℤ}
use webfuse.Message.Bytes.{Bytes}
use webfuse.Message.Data.{Timespec, Stat, Statvfs}

pub record Posix (W : Type 0) : Type 0 where
  pub errno : W → ℕ
  pub access : Bytes → ℕ → W → ℤ × W
  pub lstat : Bytes → Stat → W → ℤ × Stat × W
  -- the bytes that `readlink` puts into a buffer of the given size
  pub readlink : Bytes → ℕ → W → ℤ × Bytes × W
  pub symlink : Bytes → Bytes → W → ℤ × W
  pub link : Bytes → Bytes → W → ℤ × W
  pub renameat2 : Bytes → Bytes → ℕ → W → ℤ × W
  pub chmod : Bytes → ℕ → W → ℤ × W
  pub chown : Bytes → ℕ → ℕ → W → ℤ × W
  pub truncate : Bytes → ℕ → W → ℤ × W
  pub ftruncate : ℤ → ℕ → W → ℤ × W
  pub fsync : ℤ → W → ℤ × W
  pub fdatasync : ℤ → W → ℤ × W
  pub utimensat : Bytes → Timespec → Timespec → W → ℤ × W
  pub futimens : ℤ → Timespec → Timespec → W → ℤ × W
  pub open_path : Bytes → ℕ → W → ℤ × W
  pub mknod : Bytes → ℕ → ℕ → W → ℤ × W
  pub creat : Bytes → ℕ → W → ℤ × W
  pub close : ℤ → W → ℤ × W
  pub unlink : Bytes → W → ℤ × W
  -- the buffer comes in and goes out
  pub pread : ℤ → Bytes → ℕ → W → ℤ × Bytes × W
  pub pwrite : ℤ → Bytes → ℕ → W → ℤ × W
  pub mkdir : Bytes → ℕ → W → ℤ × W
  pub opendir : Bytes → W → Option ℕ × W
  pub readdir : ℕ → W → Option Bytes × W
  -- no call of the system, but the fuel of the loop over the entries of a directory
  pub readdir_fuel : ℕ → W → ℕ
  pub closedir : ℕ → W → W
  pub rmdir : Bytes → W → ℤ × W
  pub statvfs : Bytes → Statvfs → W → ℤ × Statvfs × W
  pub getpass : Bytes → W → Bytes × W
  -- `O_RDONLY` and `O_WRONLY` of <fcntl.h>, `PATH_MAX` of <limits.h>
  pub o_rdonly : ℕ
  pub o_wronly : ℕ
  pub path_max : ℕ
