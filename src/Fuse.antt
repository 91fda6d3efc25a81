-- ===== src/Fuse.antt =====
-- `fuse`: src/webfuse/fuse.cpp. Every callback asks the file system that the context of FUSE points to.
-- A `char const *` is its bytes before the first zero, an `int` or an id is a bit pattern.
pub mod Mounted
pub mod Operations
use webfuse.Base.{
  ℕ, zero, suc, ◌+◌, List, [], ◌∷◌, ◌++◌, Bool, not, Option, none, some, ◌==◌, if◌then◌else◌,
  length, take, drop,
}
use webfuse.Base.Int.{ℤ, is_zero}
use webfuse.Base.Text.{codes, c_string}
use webfuse.Message.Bytes.{Bytes}
use webfuse.Message.Data.{Timespec, Stat, Statvfs}
use webfuse.Fs.{FilesystemI, invalid_handle}

-- What the callbacks use of `fuse_file_info` and `fuse_config`.
pub record FileInfo : Type 0 where
  pub flags : ℕ
  pub fh : ℕ

pub record FuseConfig : Type 0 where
  pub use_ino : ℕ
  pub entry_timeout : ℕ
  pub attr_timeout : ℕ
  pub negative_timeout : ℕ

-- `info` may be null.
unfoldable pub fs_get_handle : Option FileInfo → ℕ
fs_get_handle none = invalid_handle
fs_get_handle (some info) = info.fh

unfoldable pub fs_init : FuseConfig → FuseConfig
fs_init config = record config {
  use_ino = 1;
  entry_timeout = 0;
  attr_timeout = 0;
  negative_timeout = 0;
}

-- `snprintf(buffer, buffer_size, "%s", out)`, where the buffer has this size.
unfoldable pub print_text : Bytes → Bytes → Bytes
print_text out [] = []
print_text out (b ∷ buffer) =
    let text = take (length buffer) (c_string out) in text ++ 0 ∷ drop (length text) buffer

-- The loop of `fs_readdir` over the names; `filler` puts one into the buffer of FUSE.
unfoldable pub fill_names : {F : Type 0} → (Bytes → F → F) → List Bytes → F → F
fill_names filler [] buffer = buffer
fill_names filler (name ∷ names) buffer = fill_names filler names (filler (c_string name) buffer)

module _ {S : Type 0} (fs : FilesystemI S) where
  unfoldable pub fs_access : Bytes → ℕ → S → ℤ × S
  fs_access path mode = fs.access path mode

  unfoldable pub fs_getattr : Bytes → Stat → Option FileInfo → S → ℤ × Stat × S
  fs_getattr path buffer info = fs.getattr path buffer

  unfoldable pub fs_readlink : Bytes → Bytes → S → ℤ × Bytes × S
  fs_readlink path buffer s =
      let (result, out, s') = fs.readlink path [] s in
      (result, if is_zero result then print_text out buffer else buffer, s')

  unfoldable pub fs_symlink : Bytes → Bytes → S → Option ℤ × S
  fs_symlink target linkpath = fs.symlink target linkpath

  unfoldable pub fs_link : Bytes → Bytes → S → ℤ × S
  fs_link old_path new_path = fs.link old_path new_path

  unfoldable pub fs_rename : Bytes → Bytes → ℕ → S → ℤ × S
  fs_rename from to flags = fs.rename from to flags

  unfoldable pub fs_chmod : Bytes → ℕ → Option FileInfo → S → ℤ × S
  fs_chmod path mode info = fs.chmod path mode

  unfoldable pub fs_chown : Bytes → ℕ → ℕ → Option FileInfo → S → ℤ × S
  fs_chown path uid gid info = fs.chown path uid gid

  unfoldable pub fs_truncate : Bytes → ℕ → Option FileInfo → S → ℤ × S
  fs_truncate path size info = fs.truncate path size (fs_get_handle info)

  unfoldable pub fs_fsync : Bytes → ℕ → Option FileInfo → S → ℤ × S
  fs_fsync path isdatasync info = fs.fsync path (not (isdatasync == 0)) (fs_get_handle info)

  unfoldable pub fs_open : Bytes → FileInfo → S → ℤ × FileInfo × S
  fs_open path info s =
      let (result, handle, s') = fs.open_file path info.flags info.fh s in
      (result, record info { fh = handle }, s')

  unfoldable pub fs_mknod : Bytes → ℕ → ℕ → S → ℤ × S
  fs_mknod path mode raw_rdev = fs.mknod path mode raw_rdev

  unfoldable pub fs_create : Bytes → ℕ → FileInfo → S → ℤ × FileInfo × S
  fs_create path mode info s =
      let (result, handle, s') = fs.create path mode info.fh s in
      (result, record info { fh = handle }, s')

  unfoldable pub fs_release : Bytes → Option FileInfo → S → ℤ × S
  fs_release path info = fs.release path (fs_get_handle info)

  unfoldable pub fs_unlink : Bytes → S → ℤ × S
  fs_unlink path = fs.unlink path

  unfoldable pub fs_read : Bytes → Bytes → ℕ → Option FileInfo → S → ℤ × Bytes × S
  fs_read path buffer raw_offset info = fs.read path raw_offset (fs_get_handle info) buffer

  unfoldable pub fs_write : Bytes → Bytes → ℕ → Option FileInfo → S → ℤ × S
  fs_write path buffer raw_offset info = fs.write path buffer raw_offset (fs_get_handle info)

  unfoldable pub fs_mkdir : Bytes → ℕ → S → ℤ × S
  fs_mkdir path mode = fs.mkdir path mode

  unfoldable pub fs_readdir : {F : Type 0} → Bytes → (Bytes → F → F) → F → S → ℤ × F × S
  fs_readdir path filler buffer s =
      let (result, names, s') = fs.readdir path [] s in
      (
        result,
        if is_zero result
            then fill_names filler (codes "." ∷ codes ".." ∷ names) buffer
            else buffer,
        s',
      )

  unfoldable pub fs_rmdir : Bytes → S → ℤ × S
  fs_rmdir path = fs.rmdir path

  unfoldable pub fs_statfs : Bytes → Statvfs → S → ℤ × Statvfs × S
  fs_statfs path buffer = fs.statfs path buffer

  unfoldable pub fs_utimes : Bytes → Timespec → Timespec → Option FileInfo → S → ℤ × S
  fs_utimes path atime mtime info = fs.utimens path atime mtime (fs_get_handle info)
