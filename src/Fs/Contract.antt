-- ===== src/Fs/Contract.antt =====
-- What a file system promises to whoever serves it: every result is an `int32_t`, and a read stays in its
-- buffer.
use webfuse.Base.{ℕ, ◌≤◌, ◌≡◌, List, Bool, true, some, length}
use webfuse.Base.Int.{ℤ, IsI32, is_positive, magnitude}
use webfuse.Message.Bytes.{Bytes}
use webfuse.Message.Data.{Timespec, Stat, Statvfs}
use webfuse.Fs.{FilesystemI}

-- What a file system promises of `read`: it returns a buffer of the same size, and no more than fits.
pub record IsRead {S : Type 0} (size : ℕ) (out : ℤ × Bytes × S) : Type 0 where
  pub in_range : IsI32 out.0
  pub same_size : length out.1 ≡ size
  pub fits : is_positive out.0 ≡ true → magnitude out.0 ≤ size

pub record IsFilesystem {S : Type 0} (fs : FilesystemI S) : Type 0 where
  pub access : (path : Bytes) (mode : ℕ) (s : S) → IsI32 (fs.access path mode s).0
  pub getattr : (path : Bytes) (attr : Stat) (s : S) → IsI32 (fs.getattr path attr s).0
  pub readlink : (path out : Bytes) (s : S) → IsI32 (fs.readlink path out s).0
  pub link : (old_path new_path : Bytes) (s : S) → IsI32 (fs.link old_path new_path s).0
  pub rename :
      (old_path new_path : Bytes) (flags : ℕ) (s : S)
      → IsI32 (fs.rename old_path new_path flags s).0
  pub chmod : (path : Bytes) (mode : ℕ) (s : S) → IsI32 (fs.chmod path mode s).0
  pub chown : (path : Bytes) (uid gid : ℕ) (s : S) → IsI32 (fs.chown path uid gid s).0
  pub truncate : (path : Bytes) (size handle : ℕ) (s : S) → IsI32 (fs.truncate path size handle s).0
  pub fsync :
      (path : Bytes) (is_datasync : Bool) (handle : ℕ) (s : S)
      → IsI32 (fs.fsync path is_datasync handle s).0
  pub utimens :
      (path : Bytes) (atime mtime : Timespec) (handle : ℕ) (s : S)
      → IsI32 (fs.utimens path atime mtime handle s).0
  pub open_file :
      (path : Bytes) (flags handle : ℕ) (s : S) → IsI32 (fs.open_file path flags handle s).0
  pub mknod : (path : Bytes) (mode rdev : ℕ) (s : S) → IsI32 (fs.mknod path mode rdev s).0
  pub create : (path : Bytes) (mode handle : ℕ) (s : S) → IsI32 (fs.create path mode handle s).0
  pub release : (path : Bytes) (handle : ℕ) (s : S) → IsI32 (fs.release path handle s).0
  pub unlink : (path : Bytes) (s : S) → IsI32 (fs.unlink path s).0
  pub write :
      (path buffer : Bytes) (offset handle : ℕ) (s : S)
      → IsI32 (fs.write path buffer offset handle s).0
  pub mkdir : (path : Bytes) (mode : ℕ) (s : S) → IsI32 (fs.mkdir path mode s).0
  pub readdir : (path : Bytes) (entries : List Bytes) (s : S) → IsI32 (fs.readdir path entries s).0
  pub rmdir : (path : Bytes) (s : S) → IsI32 (fs.rmdir path s).0
  pub statfs : (path : Bytes) (statistics : Statvfs) (s : S) → IsI32 (fs.statfs path statistics s).0
  pub symlink :
      (target linkpath : Bytes) (s s' : S) (result : ℤ)
      → fs.symlink target linkpath s ≡ (some result, s')
      → IsI32 result
  pub read :
      (path : Bytes) (offset handle : ℕ) (buffer : Bytes) (s : S)
      → IsRead (length buffer) (fs.read path offset handle buffer s)
