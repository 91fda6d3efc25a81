-- ===== src/Flags/Status.antt =====
-- Results of operations: src/webfuse/filesystem/status.hpp and status.cpp.
pub mod Crossing
use webfuse.Base.{ℕ, suc, Bool, Option, none, some}
use webfuse.Flags.Cases.{find_case}
use webfuse.Base.Int.{ℤ, pos, negsuc, neg, is_zero}
use webfuse.Flags.ErrnoName.{ErrnoName, errno_names}
use webfuse.Flags.Platform.{Platform}

-- `status::bad_...`, without its sign.
unfoldable pub code : ErrnoName → ℕ
code ErrnoName.e2big = 7
code ErrnoName.eacces = 13
code ErrnoName.eagain = 11
code ErrnoName.ebadf = 9
code ErrnoName.ebusy = 16
code ErrnoName.edestaddrreq = 89
code ErrnoName.edquot = 122
code ErrnoName.eexist = 17
code ErrnoName.efault = 14
code ErrnoName.efbig = 27
code ErrnoName.eintr = 4
code ErrnoName.einval = 22
code ErrnoName.eio = 5
code ErrnoName.eisdir = 21
code ErrnoName.eloop = 40
code ErrnoName.emfile = 24
code ErrnoName.emlink = 31
code ErrnoName.enametoolong = 36
code ErrnoName.enfile = 23
code ErrnoName.enodata = 61
code ErrnoName.enodev = 19
code ErrnoName.enoent = 2
code ErrnoName.enomem = 12
code ErrnoName.enospc = 28
code ErrnoName.enosys = 38
code ErrnoName.enotdir = 20
code ErrnoName.enotempty = 39
code ErrnoName.enotsup = 95
code ErrnoName.enxio = 6
code ErrnoName.eoverflow = 75
code ErrnoName.eperm = 1
code ErrnoName.epipe = 32
code ErrnoName.erange = 34
code ErrnoName.erofs = 30
code ErrnoName.etxtbsy = 26
code ErrnoName.exdev = 18

-- `switch (-value) { case -label(name): return -target(name); ... default: return -value; }`
unfoldable pub translate : (ErrnoName → ℕ) → (ErrnoName → ℕ) → ℕ → ℤ
translate label target value = elim (find_case label value errno_names) [
  | some name ↦ neg (target name)
  | none ↦ neg value
]

module _ (p : Platform) where
  unfoldable pub from_fusestatus : ℤ → ℤ
  from_fusestatus (pos value) = pos value
  from_fusestatus (negsuc value) = translate p.errno code (suc value)

  unfoldable pub to_fusestatus : ℤ → ℤ
  to_fusestatus (pos value_) = pos value_
  to_fusestatus (negsuc value_) = translate code p.errno (suc value_)

-- `is_good()`
unfoldable pub is_good : ℤ → Bool
is_good value_ = is_zero value_
