-- ===== src/Fs/Empty.antt =====
-- `empty_filesystem`: src/webfuse/filesystem/empty_filesystem.cpp, the file system that the service
-- shows while no provider answers. It keeps no state.
use webfuse.Base.{ℕ, List, [], ◌∷◌, Bool, false, Option, some, ◌==◌, if◌then◌else◌, bit_or}
use webfuse.Base.Int.{ℤ, pos, neg}
use webfuse.Fs.{FilesystemI}
use webfuse.Flags.ErrnoName.{ErrnoName}
use webfuse.Flags.Platform.{Platform}
use webfuse.Message.Bytes.{Bytes}
use webfuse.Message.Data.{Timespec, Stat, Statvfs}

-- `path == "/"`
unfoldable pub is_root : Bytes → Bool
is_root [] = false
is_root (c ∷ []) = c == b'/'
is_root (c ∷ d ∷ rest) = false

module _ (p : Platform) where
  abbrev pub failure : ErrnoName → ℤ
  failure name = neg (p.errno name)

  unfoldable pub access : Bytes → ℕ → ℤ
  access path mode = if is_root path then pos 0 else failure ErrnoName.enoent

  unfoldable pub getattr : Bytes → Stat → ℤ × Stat
  getattr path attr =
      if is_root path
      then (pos 0, record attr { st_ino = 1; st_nlink = 1; st_mode = bit_or p.s_ifdir 0o555 })
      else (failure ErrnoName.enoent, attr)

  unfoldable pub readlink : Bytes → Bytes → ℤ × Bytes
  readlink path out = (failure ErrnoName.enoent, out)

  unfoldable pub symlink : Bytes → Bytes → ℤ
  symlink target linkpath = failure ErrnoName.enoent

  unfoldable pub link : Bytes → Bytes → ℤ
  link old_path new_path = failure ErrnoName.enoent

  unfoldable pub rename : Bytes → Bytes → ℕ → ℤ
  rename old_path new_path flags = failure ErrnoName.enoent

  unfoldable pub chmod : Bytes → ℕ → ℤ
  chmod path mode = failure ErrnoName.eperm

  unfoldable pub chown : Bytes → ℕ → ℕ → ℤ
  chown path uid gid = failure ErrnoName.eperm

  unfoldable pub truncate : Bytes → ℕ → ℕ → ℤ
  truncate path size handle = failure ErrnoName.eperm

  unfoldable pub fsync : Bytes → Bool → ℕ → ℤ
  fsync path is_datasync handle = pos 0

  unfoldable pub utimens : Bytes → Timespec → Timespec → ℕ → ℤ
  utimens path atime mtime handle = failure ErrnoName.enosys

  unfoldable pub open_file : Bytes → ℕ → ℕ → ℤ × ℕ
  open_file path flags handle = (failure ErrnoName.enoent, handle)

  unfoldable pub mknod : Bytes → ℕ → ℕ → ℤ
  mknod path mode rdev = failure ErrnoName.eperm

  unfoldable pub create : Bytes → ℕ → ℕ → ℤ × ℕ
  create path mode handle = (failure ErrnoName.eperm, handle)

  unfoldable pub release : Bytes → ℕ → ℤ
  release path handle = pos 0

  unfoldable pub unlink : Bytes → ℤ
  unlink path = failure ErrnoName.eperm

  unfoldable pub read : Bytes → ℕ → ℕ → Bytes → ℤ × Bytes
  read path offset handle buffer = (failure ErrnoName.ebadf, buffer)

  unfoldable pub write : Bytes → Bytes → ℕ → ℕ → ℤ
  write path buffer offset handle = failure ErrnoName.ebadf

  unfoldable pub mkdir : Bytes → ℕ → ℤ
  mkdir path mode = failure ErrnoName.eperm

  unfoldable pub readdir : Bytes → List Bytes → ℤ × List Bytes
  readdir path entries =
      if is_root path then (pos 0, entries) else (failure ErrnoName.enoent, entries)

  unfoldable pub rmdir : Bytes → ℤ
  rmdir path = failure ErrnoName.eperm

  unfoldable pub statfs : Bytes → Statvfs → ℤ × Statvfs
  statfs path statistics = (failure ErrnoName.enosys, statistics)

-- `get_credentials()` returns the empty string.
unfoldable pub get_credentials : Option Bytes
get_credentials = some []

-- The empty file system on any state, which it leaves alone.
abbrev pub always : {S : Type 0} → ℤ → S → ℤ × S
always result s = (result, s)

abbrev pub always_fill : {B S : Type 0} → ℤ × B → S → ℤ × B × S
always_fill (result, b) s = (result, b, s)

unfoldable pub empty_filesystem : (p : Platform) {S : Type 0} → FilesystemI S
empty_filesystem p = record {
  access = λ path mode. always (access p path mode);
  getattr = λ path attr. always_fill (getattr p path attr);
  readlink = λ path out. always_fill (readlink p path out);
  symlink = λ target linkpath s. (some (symlink p target linkpath), s);
  link = λ old_path new_path. always (link p old_path new_path);
  rename = λ old_path new_path flags. always (rename p old_path new_path flags);
  chmod = λ path mode. always (chmod p path mode);
  chown = λ path uid gid. always (chown p path uid gid);
  truncate = λ path size handle. always (truncate p path size handle);
  fsync = λ path is_datasync handle. always (fsync p path is_datasync handle);
  utimens = λ path atime mtime handle. always (utimens p path atime mtime handle);
  open_file = λ path flags handle. always_fill (open_file p path flags handle);
  mknod = λ path mode rdev. always (mknod p path mode rdev);
  create = λ path mode handle. always_fill (create p path mode handle);
  release = λ path handle. always (release p path handle);
  unlink = λ path. always (unlink p path);
  read = λ path offset handle buffer. always_fill (read p path offset handle buffer);
  write = λ path buffer offset handle. always (write p path buffer offset handle);
  mkdir = λ path mode. always (mkdir p path mode);
  readdir = λ path entries. always_fill (readdir p path entries);
  rmdir = λ path. always (rmdir p path);
  statfs = λ path statistics. always_fill (statfs p path statistics);
  get_credentials = λ s. (get_credentials, s);
}
