-- ===== src/Fs/Statistics.antt =====
-- `filesystem_statistics`: src/webfuse/filesystem/filesystem_statistics.cpp.
use webfuse.Base.{ℕ, ◌≡◌, refl}
use webfuse.Message.Data.{Statvfs}

pub record FilesystemStatistics : Type 0 where
  pub bsize : ℕ
  pub frsize : ℕ
  pub blocks : ℕ
  pub bfree : ℕ
  pub bavail : ℕ
  pub files : ℕ
  pub ffree : ℕ
  pub f_namemax : ℕ

unfoldable pub new_statistics : FilesystemStatistics
new_statistics = record {
  bsize = 0;
  frsize = 0;
  blocks = 0;
  bfree = 0;
  bavail = 0;
  files = 0;
  ffree = 0;
  f_namemax = 0;
}

unfoldable pub from_statvfs : Statvfs → FilesystemStatistics
from_statvfs other = record {
  bsize = other.f_bsize;
  frsize = other.f_frsize;
  blocks = other.f_blocks;
  bfree = other.f_bfree;
  bavail = other.f_bavail;
  files = other.f_files;
  ffree = other.f_ffree;
  f_namemax = other.f_namemax;
}

unfoldable pub copy_to : FilesystemStatistics → Statvfs → Statvfs
copy_to statistics other = record other {
  f_bsize = statistics.bsize;
  f_frsize = statistics.frsize;
  f_blocks = statistics.blocks;
  f_bfree = statistics.bfree;
  f_bavail = statistics.bavail;
  f_files = statistics.files;
  f_ffree = statistics.ffree;
  f_namemax = statistics.f_namemax;
}

-- What is copied there and back is the same.
pub from_statvfs-copy_to :
    (statistics : FilesystemStatistics) (other : Statvfs)
    → from_statvfs (copy_to statistics other) ≡ statistics
unfolding from_statvfs copy_to
from_statvfs-copy_to statistics other = refl
