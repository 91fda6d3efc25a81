-- ===== src/Message/Data.antt =====
-- The structures that messages carry: `struct stat`, `struct timespec` and `struct statvfs`. Their
-- members are the bit patterns of the values.
use webfuse.Base.{ℕ}

pub record Timespec : Type 0 where
  pub tv_sec : ℕ
  pub tv_nsec : ℕ

pub record Stat : Type 0 where
  pub st_ino : ℕ
  pub st_nlink : ℕ
  pub st_mode : ℕ
  pub st_uid : ℕ
  pub st_gid : ℕ
  pub st_rdev : ℕ
  pub st_size : ℕ
  pub st_blocks : ℕ
  pub st_atim : Timespec
  pub st_mtim : Timespec
  pub st_ctim : Timespec

pub record Statvfs : Type 0 where
  pub f_bsize : ℕ
  pub f_frsize : ℕ
  pub f_blocks : ℕ
  pub f_bfree : ℕ
  pub f_bavail : ℕ
  pub f_files : ℕ
  pub f_ffree : ℕ
  pub f_namemax : ℕ
