-- ===== src/Tests/Samples.antt =====
-- A system with the constants of 64-bit Linux, and a small file system.
use webfuse.Base.{ℕ, ◌+◌, ◌^◌, ◌≡◌, ◌≢◌, refl, List, [], ◌∷◌, ◌++◌, length, drop, some}
use webfuse.Base.Int.{ℤ, pos, neg}
use webfuse.Flags.Platform.{Platform, OpenFlag, largefile}
use webfuse.Flags.Status
use webfuse.Flags.Status.Crossing.{HasLinuxErrnos, HasErrnos, pos_code, code-AreDistinct}
use webfuse.Flags.OpenFlags
use webfuse.Flags.OpenFlags.RoundTrip.{HasLinuxOpenFlags}
use webfuse.Flags.AccessMode.{HasAccessModes}
use webfuse.Flags.RenameFlags.{HasRenameFlags}
use webfuse.Flags.FileMode.{HasFileModes}
use webfuse.Message.Bytes.{Bytes}
use webfuse.Fs.{FilesystemI}

abbrev pub linux_open_flag : OpenFlag → ℕ
linux_open_flag OpenFlag.largefile = 0
linux_open_flag f = OpenFlags.code f

abbrev pub linux : Platform
linux = record {
  lws_pre = 16;
  errno = Status.code;
  r_ok = 4;
  w_ok = 2;
  x_ok = 1;
  s_ifmt = 0o170000;
  s_ifreg = 0o100000;
  s_ifdir = 0o040000;
  s_ifchr = 0o020000;
  s_ifblk = 0o060000;
  s_ififo = 0o010000;
  s_iflnk = 0o120000;
  s_ifsock = 0o140000;
  open_flag = linux_open_flag;
  rename_noreplace = 1;
  rename_exchange = 2;
}

pub linux-HasLinuxErrnos : HasLinuxErrnos linux
linux-HasLinuxErrnos name = refl

pub linux-HasErrnos : HasErrnos linux
linux-HasErrnos = record { positive = pos_code; distinct = code-AreDistinct }

pub linux-HasAccessModes : HasAccessModes linux
linux-HasAccessModes = record { r_ok_eq = refl; w_ok_eq = refl; x_ok_eq = refl }

pub linux-HasRenameFlags : HasRenameFlags linux
linux-HasRenameFlags = record { noreplace_eq = refl; exchange_eq = refl }

pub linux-HasFileModes : HasFileModes linux
linux-HasFileModes = record {
  ifmt_eq = refl;
  ifreg_eq = refl;
  ifdir_eq = refl;
  ifchr_eq = refl;
  ifblk_eq = refl;
  ififo_eq = refl;
  iflnk_eq = refl;
  ifsock_eq = refl;
}

same_open_flag : (f : OpenFlag) → f ≢ largefile → linux_open_flag f ≡ OpenFlags.code f
same_open_flag OpenFlag.largefile h = absurd (h refl)
same_open_flag _ h = refl

pub linux-HasLinuxOpenFlags : HasLinuxOpenFlags linux
linux-HasLinuxOpenFlags = record { same = same_open_flag; no_largefile = refl }

-- It notes the arguments of each call, and reads and lists fixed data.
abbrev pub Notes : Type 0
Notes = List ℕ

abbrev pub content : Bytes
content = 10 ∷ 20 ∷ 30 ∷ []

abbrev pub done : List ℕ → Notes → ℤ × Notes
done seen notes = (pos 0, seen ++ notes)

abbrev pub sample : FilesystemI Notes
sample = record {
  access = λ path mode. done (mode ∷ []);
  getattr = λ path attr notes.
      (pos 0, record attr { st_ino = 7; st_size = 2 ^ 32 + 5; st_mode = 0o100644 }, notes);
  readlink = λ path out notes. (pos 0, path, notes);
  symlink = λ target linkpath notes. (some (pos 0), notes);
  link = λ old_path new_path. done [];
  rename = λ old_path new_path flags. done (flags ∷ []);
  chmod = λ path mode. done (mode ∷ []);
  chown = λ path uid gid. done (uid ∷ gid ∷ []);
  truncate = λ path size handle. done (size ∷ handle ∷ []);
  fsync = λ path is_datasync handle. done (handle ∷ []);
  utimens = λ path atime mtime handle. done (handle ∷ []);
  open_file = λ path flags handle notes. (pos 0, 3, flags ∷ notes);
  mknod = λ path mode rdev. done (mode ∷ rdev ∷ []);
  create = λ path mode handle notes. (pos 0, 4, mode ∷ notes);
  release = λ path handle. done (handle ∷ []);
  unlink = λ path. done [];
  read = λ path offset handle buffer notes. (pos 3, content ++ drop 3 buffer, notes);
  write = λ path buffer offset handle notes. (pos (length buffer), offset ∷ handle ∷ notes);
  mkdir = λ path mode. done (mode ∷ []);
  readdir = λ path entries notes. (pos 0, (1 ∷ []) ∷ (2 ∷ 3 ∷ []) ∷ [], notes);
  rmdir = λ path notes. (neg 2, notes);
  statfs = λ path statistics notes. (pos 0, record statistics { f_bsize = 4096 }, notes);
  get_credentials = λ notes. (some (9 ∷ []), notes);
}
