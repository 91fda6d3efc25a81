-- ===== src/Tests/Machine.antt =====
-- A small system for the provider program: every file is full of the letter A.
use webfuse.Base.{ℕ, suc, ◌≤◌, ◌≡◌, refl, ap, [], ◌∷◌, true, Option, none, some, length, arith}
use webfuse.Base.Int.{pos, neg, to_i32, to_u32, is_positive, magnitude}
use webfuse.Message.Bytes.{Bytes}
use webfuse.Local.{as_int}
use webfuse.Local.Calls.{Posix}
use webfuse.Local.Contract.{IsPosix}
use webfuse.Tests.Samples.{Notes, done}

-- What a read of a buffer gives.
abbrev full_of_a : Bytes → Bytes
full_of_a [] = []
full_of_a (b ∷ buffer) = b'A' ∷ full_of_a buffer

-- The entries of a directory are the notes.
abbrev next_entry : Notes → Option Bytes × Notes
next_entry [] = (none, [])
next_entry (n ∷ notes) = (some (n ∷ []), notes)

abbrev pub machine : Posix Notes
machine = record {
  errno = λ w. 2;
  access = λ path mode. done (mode ∷ []);
  lstat = λ path attr w. (pos 0, record attr { st_ino = 7 }, w);
  readlink = λ path size w. (pos 4, b'/' ∷ b'b' ∷ b'/' ∷ b'x' ∷ 0 ∷ [], w);
  symlink = λ target linkpath w. (pos 0, length target ∷ w);
  link = λ old_path new_path. done [];
  renameat2 = λ old_path new_path flags. done (flags ∷ []);
  chmod = λ path mode. done (mode ∷ []);
  chown = λ path uid gid. done (uid ∷ gid ∷ []);
  truncate = λ path size. done (size ∷ []);
  ftruncate = λ fd size. done (magnitude fd ∷ size ∷ []);
  fsync = λ fd. done (magnitude fd ∷ []);
  fdatasync = λ fd. done (magnitude fd ∷ []);
  utimensat = λ path atime mtime. done [];
  futimens = λ fd atime mtime. done (magnitude fd ∷ []);
  open_path = λ path flags w. (pos 5, flags ∷ w);
  mknod = λ path mode rdev. done (mode ∷ rdev ∷ []);
  creat = λ path mode w. (pos 5, mode ∷ w);
  close = λ fd. done (magnitude fd ∷ []);
  unlink = λ path. done [];
  pread = λ fd buffer offset w. (pos (length buffer), full_of_a buffer, offset ∷ w);
  pwrite = λ fd buffer offset w. (pos (length buffer), magnitude fd ∷ offset ∷ w);
  mkdir = λ path mode. done (mode ∷ []);
  opendir = λ path w. (some 3, w);
  readdir = λ directory w. next_entry w;
  readdir_fuel = λ directory w. length w;
  closedir = λ directory w. w;
  rmdir = λ path w. (neg 1, w);
  statvfs = λ path statistics w. (pos 0, statistics, w);
  getpass = λ prompt w. (9 ∷ [], w);
  o_rdonly = 0;
  o_wronly = 1;
  path_max = 4096;
}

length_filled : (buffer : Bytes) → length (full_of_a buffer) ≡ length buffer
length_filled [] = refl
length_filled (b ∷ buffer) = ap suc (length_filled buffer)

as_int_fits : (n : ℕ) → is_positive (as_int (pos n)) ≡ true → magnitude (as_int (pos n)) ≤ n
unfolding to_i32 to_u32
as_int_fits n h = ground arith

pub machine-IsPosix : IsPosix machine
machine-IsPosix = record {
  errno_range = λ w. omega arith;
  pread_size = λ fd buffer offset w. length_filled buffer;
  pread_fits = λ fd buffer offset w h. as_int_fits (length buffer) h;
}
