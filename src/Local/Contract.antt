-- ===== src/Local/Contract.antt =====
-- The file system of the provider program keeps the contract of a file system, if the system does what is
-- documented of its calls.
use mathlib.Core.Option.{some-injective}
use webfuse.Base.{
  ℕ, zero, suc, ◌^◌, ◌<◌, ◌≤◌, ◌≡◌, refl, ap, subst, List, [], ◌∷◌, true, false, not, Option, some,
  Option-cases, inl, inr, ◌==◌, if-both, length, arith,
}
use webfuse.Base.Int.{
  ℤ, pos, negsuc, neg, IsI32, to_i32, to_u32, to_u32-lt, is_zero, is_positive, magnitude,
}
use webfuse.Message.Bytes.{Bytes}
use webfuse.Fs.{invalid_handle}
use webfuse.Fs.Contract.{IsFilesystem, IsRead}
use webfuse.Local
use webfuse.Local.{local, status_of, count_of, opened, as_int, is_nonneg, descriptor}
use webfuse.Local.Calls.{Posix}

-- Of <errno.h> and of the manual page of `pread`: an error number is an `int`, and no more than the size of
-- the buffer is read, into its front.
pub record IsPosix {W : Type 0} (sys : Posix W) : Type 0 where
  pub errno_range : (w : W) → sys.errno w < 2 ^ 31
  pub pread_size :
      (fd : ℤ) (buffer : Bytes) (offset : ℕ) (w : W)
      → length (sys.pread fd buffer offset w).1 ≡ length buffer
  pub pread_fits :
      (fd : ℤ) (buffer : Bytes) (offset : ℕ) (w : W)
      → is_positive (as_int (sys.pread fd buffer offset w).0) ≡ true
      → magnitude (as_int (sys.pread fd buffer offset w).0) ≤ length buffer

IsI32-neg : (n : ℕ) → n < 2 ^ 31 → IsI32 (neg n)
IsI32-neg zero h = omega arith
IsI32-neg (suc n) h = omega arith

to_i32-IsI32 : (w : ℕ) → w < 2 ^ 32 → IsI32 (to_i32 w)
unfolding to_i32
to_i32-IsI32 w h = ground arith

as_int-IsI32 : (i : ℤ) → IsI32 (as_int i)
as_int-IsI32 i = to_i32-IsI32 (to_u32 i) (to_u32-lt i)

neg_not_positive : (n : ℕ) → is_positive (neg n) ≡ false
neg_not_positive zero = refl
neg_not_positive (suc n) = refl

module _ {W : Type 0} (sys : Posix W) (base_path token : Bytes) (known : IsPosix sys) where
  status_of-IsI32 : (out : ℤ × W) → IsI32 (status_of sys base_path token out).0
  unfolding status_of
  status_of-IsI32 (result, w) =
      if-both IsI32 (is_zero result) (omega arith) (IsI32-neg (sys.errno w) (known.errno_range w))

  opened-IsI32 : (handle : ℕ) (out : ℤ × W) → IsI32 (opened sys base_path token handle out).0
  unfolding opened
  opened-IsI32 handle (fd, w) =
      if-both IsI32 (is_nonneg fd) (omega arith) (IsI32-neg (sys.errno w) (known.errno_range w))

  count_of-IsI32 :
      (result : ℤ) (w : W) → IsI32 result → IsI32 (count_of sys base_path token (result, w)).0
  unfolding count_of
  count_of-IsI32 result w h =
      if-both IsI32 (is_nonneg result) h (IsI32-neg (sys.errno w) (known.errno_range w))

  readlink-IsI32 :
      (path out : Bytes) (w : W) → IsI32 (Local.readlink sys base_path token path out w).0
  unfolding Local.readlink
  readlink-IsI32 path out w =
      if-both IsI32
        (is_nonneg
          (as_int (sys.readlink (Local.full_path sys base_path token path) sys.path_max w).0))
        (omega arith) (IsI32-neg _ (known.errno_range _))

  readdir-IsI32 :
      (path : Bytes) (entries : List Bytes) (w : W)
      → IsI32 (Local.readdir sys base_path token path entries w).0
  unfolding Local.readdir
  readdir-IsI32 path entries w =
      let directory = sys.opendir (Local.full_path sys base_path token path) w in
      elim (Option-cases (directory.0)) [
        | inl e ↦ rw (e, Local.readdir) (IsI32-neg _ (known.errno_range directory.1))
        | inr (d, e) ↦ rw (e, Local.readdir) (omega arith)
      ]

  write-IsI32 :
      (path buffer : Bytes) (offset handle : ℕ) (w : W)
      → IsI32 (Local.write sys base_path token path buffer offset handle w).0
  unfolding Local.write Local.write_opened Local.write_to
  write-IsI32 path buffer offset handle w = count_of-IsI32 _ _ (
      if-both (λ (out : ℤ × W). IsI32 (out.0)) (handle == invalid_handle)
        (if-both (λ (out : ℤ × W). IsI32 (out.0))
          (is_nonneg (sys.open_path (Local.full_path sys base_path token path) sys.o_wronly w).0)
          (as_int-IsI32 _) (omega arith))
        (as_int-IsI32 _))

  symlink-IsI32 :
      (target linkpath : Bytes) (w w' : W) (result : ℤ)
      → Local.symlink sys base_path token target linkpath w ≡ (some result, w')
      → IsI32 result
  unfolding Local.symlink
  symlink-IsI32 [] linkpath w w' result e = cc
  symlink-IsI32 (c ∷ target) linkpath w w' result e =
      subst IsI32 (some-injective _ _ (ap (λ (out : Option ℤ × W). out.0) e)) (status_of-IsI32 _)

  -- The buffer of a read: what it holds, and how much was read.
  read_from-IsRead :
      (fd : ℤ) (buffer : Bytes) (offset : ℕ) (w : W)
      → IsRead (length buffer) (Local.read_from sys base_path token fd buffer offset w)
  unfolding Local.read_from
  read_from-IsRead fd buffer offset w = record {
    in_range = as_int-IsI32 _;
    same_size = known.pread_size fd buffer offset w;
    fits = known.pread_fits fd buffer offset w;
  }

  unread-IsRead : (buffer : Bytes) (w : W) → IsRead (length buffer) (neg 1, buffer, w)
  unread-IsRead buffer w = record { in_range = omega arith; same_size = refl; fits = λ e. cc }

  count_of-IsRead :
      (size : ℕ) (result : ℤ) (buffer : Bytes) (w : W)
      → IsRead size (result, buffer, w)
      → IsRead size (
        (count_of sys base_path token (result, w)).0,
        buffer,
        (count_of sys base_path token (result, w)).1,
      )
  unfolding count_of
  count_of-IsRead size (pos n) buffer w h = h
  count_of-IsRead size (negsuc n) buffer w h = record {
    in_range = IsI32-neg (sys.errno w) (known.errno_range w);
    same_size = h.same_size;
    fits = λ e. cc (neg_not_positive (sys.errno w));
  }

  close_IsRead :
      (size : ℕ) (result : ℤ) (buffer : Bytes) (w w' : W)
      → IsRead size (result, buffer, w)
      → IsRead size (result, buffer, w')
  close_IsRead size result buffer w w' h = record {
    in_range = h.in_range;
    same_size = h.same_size;
    fits = h.fits;
  }

  read-IsRead :
      (path : Bytes) (offset handle : ℕ) (buffer : Bytes) (w : W)
      → IsRead (length buffer) (Local.read sys base_path token path offset handle buffer w)
  unfolding Local.read Local.read_opened Local.read_count
  read-IsRead path offset handle buffer w =
      let fd = sys.open_path (Local.full_path sys base_path token path) sys.o_rdonly w in
      let size : ℕ = length buffer in
      count_of-IsRead size _ _ _ (
        if-both (λ (out : ℤ × Bytes × W). IsRead size (out.0, out.1, out.2))
          (not (handle == invalid_handle))
          (if-both (λ (out : ℤ × Bytes × W). IsRead size (out.0, out.1, out.2)) (is_nonneg fd.0)
            (close_IsRead size _ _ _ _ (read_from-IsRead fd.0 buffer offset fd.1))
            (unread-IsRead buffer fd.1))
          (read_from-IsRead (descriptor handle) buffer offset w))

-- The file system of the provider program promises what the provider needs, if error numbers are
-- below 2 ^ 31 and `pread` keeps to its buffer: the result of every operation is an `int32_t` (of
-- `symlink`, if it does not throw), and `read` keeps the size of the buffer and reports no more
-- than fits.
pub local-IsFilesystem :
    {W : Type 0} (sys : Posix W) (base_path token : Bytes)
    → IsPosix sys
    → IsFilesystem (local sys base_path token)
unfolding local Local.access Local.link Local.rename Local.chmod Local.chown Local.truncate
    Local.fsync Local.utimens Local.mknod Local.release Local.unlink Local.mkdir Local.rmdir
    Local.getattr Local.statfs Local.open_file Local.create
local-IsFilesystem sys base_path token known = record {
  access = λ path mode w. status_of-IsI32 sys base_path token known _;
  link = λ old_path new_path w. status_of-IsI32 sys base_path token known _;
  rename = λ old_path new_path flags w. status_of-IsI32 sys base_path token known _;
  chmod = λ path mode w. status_of-IsI32 sys base_path token known _;
  chown = λ path uid gid w. status_of-IsI32 sys base_path token known _;
  truncate = λ path size handle w. status_of-IsI32 sys base_path token known _;
  fsync = λ path is_datasync handle w. status_of-IsI32 sys base_path token known _;
  utimens = λ path atime mtime handle w. status_of-IsI32 sys base_path token known _;
  mknod = λ path mode rdev w. status_of-IsI32 sys base_path token known _;
  release = λ path handle w. status_of-IsI32 sys base_path token known _;
  unlink = λ path w. status_of-IsI32 sys base_path token known _;
  mkdir = λ path mode w. status_of-IsI32 sys base_path token known _;
  rmdir = λ path w. status_of-IsI32 sys base_path token known _;
  getattr = λ path attr w. status_of-IsI32 sys base_path token known _;
  statfs = λ path statistics w. status_of-IsI32 sys base_path token known _;
  open_file = λ path flags handle w. opened-IsI32 sys base_path token known handle _;
  create = λ path mode handle w. opened-IsI32 sys base_path token known handle _;
  readlink = λ path out w. readlink-IsI32 sys base_path token known path out w;
  readdir = λ path entries w. readdir-IsI32 sys base_path token known path entries w;
  write = λ path buffer offset handle w.
      write-IsI32 sys base_path token known path buffer offset handle w;
  symlink = λ target linkpath w w' result e.
      symlink-IsI32 sys base_path token known target linkpath w w' result e;
  read = λ path offset handle buffer w.
      read-IsRead sys base_path token known path offset handle buffer w;
}
