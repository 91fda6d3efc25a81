-- ===== src/Fuse/Operations.antt =====
-- `fuse::run` and `fuse::print_usage` of src/webfuse/fuse.cpp: the table of callbacks that libfuse gets. A
-- callback that is not set is none; `fuse_main` of libfuse is a parameter, and `F` its buffer of names.
use webfuse.Base.{ℕ, List, [], ◌∷◌, Option, none, some}
use webfuse.Base.Int.{ℤ}
use webfuse.Base.Text.{codes}
use webfuse.Message.Bytes.{Bytes}
use webfuse.Message.Data.{Timespec, Stat, Statvfs}
use webfuse.Fs.{FilesystemI}
use webfuse.Fuse.{
  FileInfo, FuseConfig, fs_init, fs_access, fs_getattr, fs_readlink, fs_symlink, fs_link, fs_rename,
  fs_chmod, fs_chown, fs_truncate, fs_fsync, fs_open, fs_mknod, fs_create, fs_release, fs_unlink,
  fs_read, fs_write, fs_mkdir, fs_readdir, fs_rmdir, fs_statfs, fs_utimes,
}

-- `fuse_operations`
pub record FuseOperations (S F : Type 0) : Type 0 where
  pub init : Option (FuseConfig → FuseConfig)
  pub access : Option (Bytes → ℕ → S → ℤ × S)
  pub getattr : Option (Bytes → Stat → Option FileInfo → S → ℤ × Stat × S)
  pub readlink : Option (Bytes → Bytes → S → ℤ × Bytes × S)
  pub symlink : Option (Bytes → Bytes → S → Option ℤ × S)
  pub link : Option (Bytes → Bytes → S → ℤ × S)
  pub rename : Option (Bytes → Bytes → ℕ → S → ℤ × S)
  pub chmod : Option (Bytes → ℕ → Option FileInfo → S → ℤ × S)
  pub chown : Option (Bytes → ℕ → ℕ → Option FileInfo → S → ℤ × S)
  pub truncate : Option (Bytes → ℕ → Option FileInfo → S → ℤ × S)
  pub fsync : Option (Bytes → ℕ → Option FileInfo → S → ℤ × S)
  pub open_file : Option (Bytes → FileInfo → S → ℤ × FileInfo × S)
  pub mknod : Option (Bytes → ℕ → ℕ → S → ℤ × S)
  pub create : Option (Bytes → ℕ → FileInfo → S → ℤ × FileInfo × S)
  pub release : Option (Bytes → Option FileInfo → S → ℤ × S)
  pub unlink : Option (Bytes → S → ℤ × S)
  pub read : Option (Bytes → Bytes → ℕ → Option FileInfo → S → ℤ × Bytes × S)
  pub write : Option (Bytes → Bytes → ℕ → Option FileInfo → S → ℤ × S)
  pub mkdir : Option (Bytes → ℕ → S → ℤ × S)
  pub readdir : Option (Bytes → (Bytes → F → F) → F → S → ℤ × F × S)
  pub rmdir : Option (Bytes → S → ℤ × S)
  pub statfs : Option (Bytes → Statvfs → S → ℤ × Statvfs × S)
  pub utimens : Option (Bytes → Timespec → Timespec → Option FileInfo → S → ℤ × S)

unfoldable pub no_operations : {S F : Type 0} → FuseOperations S F
no_operations = record {
  init = none;
  access = none;
  getattr = none;
  readlink = none;
  symlink = none;
  link = none;
  rename = none;
  chmod = none;
  chown = none;
  truncate = none;
  fsync = none;
  open_file = none;
  mknod = none;
  create = none;
  release = none;
  unlink = none;
  read = none;
  write = none;
  mkdir = none;
  readdir = none;
  rmdir = none;
  statfs = none;
  utimens = none;
}

module _ {S F : Type 0} (fs : FilesystemI S) where
  unfoldable pub operations : FuseOperations S F
  operations = record no_operations {
    init = some fs_init;
    access = some (fs_access fs);
    getattr = some (fs_getattr fs);
    readlink = some (fs_readlink fs);
    symlink = some (fs_symlink fs);
    link = some (fs_link fs);
    rename = some (fs_rename fs);
    chmod = some (fs_chmod fs);
    chown = some (fs_chown fs);
    truncate = some (fs_truncate fs);
    fsync = some (fs_fsync fs);
    open_file = some (fs_open fs);
    mknod = some (fs_mknod fs);
    create = some (fs_create fs);
    release = some (fs_release fs);
    unlink = some (fs_unlink fs);
    read = some (fs_read fs);
    write = some (fs_write fs);
    mkdir = some (fs_mkdir fs);
    readdir = some (fs_readdir fs);
    rmdir = some (fs_rmdir fs);
    statfs = some (fs_statfs fs);
    utimens = some (fs_utimes fs);
  }

  -- The context of FUSE is the file system that the callbacks are given.
  unfoldable pub run : {R : Type 0} → (List Bytes → FuseOperations S F → S → R) → List Bytes → S → R
  run fuse_main argv s = fuse_main argv operations s

-- The help of libfuse comes without a callback, and without a context.
unfoldable pub print_usage : {S F R : Type 0} → (List Bytes → FuseOperations S F → R) → R
print_usage fuse_main = fuse_main (codes "webfuse" ∷ codes "--help" ∷ []) no_operations
