-- ===== src/Flags/Status/Crossing.antt =====
-- Errors that cross from one system to another, or stay on one: `from_fusestatus` and
-- `to_fusestatus` of src/webfuse/filesystem/status.cpp.
use webfuse.Base.{ℕ, zero, suc, ◌<◌, ◌≡◌, refl, sym, ap, ◌∙◌, some, inl, inr, arith, Option-cases}
use webfuse.Base.Int.{ℤ, pos, negsuc, neg}
use webfuse.Flags.ErrnoName.{ErrnoName, errno_names}
use webfuse.Flags.Platform.{Platform}
use webfuse.Flags.Cases.{
  find_case, find_case_label, IsOneOf, IsOneOf-at, AreDistinct, find_case_total,
}
use webfuse.Flags.Status.{code, translate, from_fusestatus, to_fusestatus}

-- Every name has a case.
IsOneOf-errno_names : (name : ErrnoName) → IsOneOf name errno_names
IsOneOf-errno_names ErrnoName.e2big = IsOneOf-at 0 errno_names refl
IsOneOf-errno_names ErrnoName.eacces = IsOneOf-at 1 errno_names refl
IsOneOf-errno_names ErrnoName.eagain = IsOneOf-at 2 errno_names refl
IsOneOf-errno_names ErrnoName.ebadf = IsOneOf-at 3 errno_names refl
IsOneOf-errno_names ErrnoName.ebusy = IsOneOf-at 4 errno_names refl
IsOneOf-errno_names ErrnoName.edestaddrreq = IsOneOf-at 5 errno_names refl
IsOneOf-errno_names ErrnoName.edquot = IsOneOf-at 6 errno_names refl
IsOneOf-errno_names ErrnoName.eexist = IsOneOf-at 7 errno_names refl
IsOneOf-errno_names ErrnoName.efault = IsOneOf-at 8 errno_names refl
IsOneOf-errno_names ErrnoName.efbig = IsOneOf-at 9 errno_names refl
IsOneOf-errno_names ErrnoName.eintr = IsOneOf-at 10 errno_names refl
IsOneOf-errno_names ErrnoName.einval = IsOneOf-at 11 errno_names refl
IsOneOf-errno_names ErrnoName.eio = IsOneOf-at 12 errno_names refl
IsOneOf-errno_names ErrnoName.eisdir = IsOneOf-at 13 errno_names refl
IsOneOf-errno_names ErrnoName.eloop = IsOneOf-at 14 errno_names refl
IsOneOf-errno_names ErrnoName.emfile = IsOneOf-at 15 errno_names refl
IsOneOf-errno_names ErrnoName.emlink = IsOneOf-at 16 errno_names refl
IsOneOf-errno_names ErrnoName.enametoolong = IsOneOf-at 17 errno_names refl
IsOneOf-errno_names ErrnoName.enfile = IsOneOf-at 18 errno_names refl
IsOneOf-errno_names ErrnoName.enodata = IsOneOf-at 19 errno_names refl
IsOneOf-errno_names ErrnoName.enodev = IsOneOf-at 20 errno_names refl
IsOneOf-errno_names ErrnoName.enoent = IsOneOf-at 21 errno_names refl
IsOneOf-errno_names ErrnoName.enomem = IsOneOf-at 22 errno_names refl
IsOneOf-errno_names ErrnoName.enospc = IsOneOf-at 23 errno_names refl
IsOneOf-errno_names ErrnoName.enosys = IsOneOf-at 24 errno_names refl
IsOneOf-errno_names ErrnoName.enotdir = IsOneOf-at 25 errno_names refl
IsOneOf-errno_names ErrnoName.enotempty = IsOneOf-at 26 errno_names refl
IsOneOf-errno_names ErrnoName.enotsup = IsOneOf-at 27 errno_names refl
IsOneOf-errno_names ErrnoName.enxio = IsOneOf-at 28 errno_names refl
IsOneOf-errno_names ErrnoName.eoverflow = IsOneOf-at 29 errno_names refl
IsOneOf-errno_names ErrnoName.eperm = IsOneOf-at 30 errno_names refl
IsOneOf-errno_names ErrnoName.epipe = IsOneOf-at 31 errno_names refl
IsOneOf-errno_names ErrnoName.erange = IsOneOf-at 32 errno_names refl
IsOneOf-errno_names ErrnoName.erofs = IsOneOf-at 33 errno_names refl
IsOneOf-errno_names ErrnoName.etxtbsy = IsOneOf-at 34 errno_names refl
IsOneOf-errno_names ErrnoName.exdev = IsOneOf-at 35 errno_names refl

-- The codes of status.hpp differ, so that `to_fusestatus` finds the name of a code.
find_case-code : (name : ErrnoName) → find_case code (code name) errno_names ≡ some name
unfolding find_case code
find_case-code ErrnoName.e2big = refl
find_case-code ErrnoName.eacces = refl
find_case-code ErrnoName.eagain = refl
find_case-code ErrnoName.ebadf = refl
find_case-code ErrnoName.ebusy = refl
find_case-code ErrnoName.edestaddrreq = refl
find_case-code ErrnoName.edquot = refl
find_case-code ErrnoName.eexist = refl
find_case-code ErrnoName.efault = refl
find_case-code ErrnoName.efbig = refl
find_case-code ErrnoName.eintr = refl
find_case-code ErrnoName.einval = refl
find_case-code ErrnoName.eio = refl
find_case-code ErrnoName.eisdir = refl
find_case-code ErrnoName.eloop = refl
find_case-code ErrnoName.emfile = refl
find_case-code ErrnoName.emlink = refl
find_case-code ErrnoName.enametoolong = refl
find_case-code ErrnoName.enfile = refl
find_case-code ErrnoName.enodata = refl
find_case-code ErrnoName.enodev = refl
find_case-code ErrnoName.enoent = refl
find_case-code ErrnoName.enomem = refl
find_case-code ErrnoName.enospc = refl
find_case-code ErrnoName.enosys = refl
find_case-code ErrnoName.enotdir = refl
find_case-code ErrnoName.enotempty = refl
find_case-code ErrnoName.enotsup = refl
find_case-code ErrnoName.enxio = refl
find_case-code ErrnoName.eoverflow = refl
find_case-code ErrnoName.eperm = refl
find_case-code ErrnoName.epipe = refl
find_case-code ErrnoName.erange = refl
find_case-code ErrnoName.erofs = refl
find_case-code ErrnoName.etxtbsy = refl
find_case-code ErrnoName.exdev = refl

pub pos_code : (name : ErrnoName) → 0 < code name
unfolding code
pos_code ErrnoName.e2big = omega arith
pos_code ErrnoName.eacces = omega arith
pos_code ErrnoName.eagain = omega arith
pos_code ErrnoName.ebadf = omega arith
pos_code ErrnoName.ebusy = omega arith
pos_code ErrnoName.edestaddrreq = omega arith
pos_code ErrnoName.edquot = omega arith
pos_code ErrnoName.eexist = omega arith
pos_code ErrnoName.efault = omega arith
pos_code ErrnoName.efbig = omega arith
pos_code ErrnoName.eintr = omega arith
pos_code ErrnoName.einval = omega arith
pos_code ErrnoName.eio = omega arith
pos_code ErrnoName.eisdir = omega arith
pos_code ErrnoName.eloop = omega arith
pos_code ErrnoName.emfile = omega arith
pos_code ErrnoName.emlink = omega arith
pos_code ErrnoName.enametoolong = omega arith
pos_code ErrnoName.enfile = omega arith
pos_code ErrnoName.enodata = omega arith
pos_code ErrnoName.enodev = omega arith
pos_code ErrnoName.enoent = omega arith
pos_code ErrnoName.enomem = omega arith
pos_code ErrnoName.enospc = omega arith
pos_code ErrnoName.enosys = omega arith
pos_code ErrnoName.enotdir = omega arith
pos_code ErrnoName.enotempty = omega arith
pos_code ErrnoName.enotsup = omega arith
pos_code ErrnoName.enxio = omega arith
pos_code ErrnoName.eoverflow = omega arith
pos_code ErrnoName.eperm = omega arith
pos_code ErrnoName.epipe = omega arith
pos_code ErrnoName.erange = omega arith
pos_code ErrnoName.erofs = omega arith
pos_code ErrnoName.etxtbsy = omega arith
pos_code ErrnoName.exdev = omega arith

pub code-AreDistinct : AreDistinct code
code-AreDistinct m n e =
    let same : some m ≡ some n =
      sym (find_case-code m) ∙ ap (λ v. find_case code v errno_names) e ∙ find_case-code n in
    cc

-- The error numbers of <errno.h> are positive and differ.
pub record HasErrnos (p : Platform) : Type 0 where
  pub positive : (name : ErrnoName) → 0 < p.errno name
  pub distinct : AreDistinct p.errno

from_fusestatus-neg :
    (p : Platform) (n : ℕ) → 0 < n → from_fusestatus p (neg n) ≡ translate p.errno code n
unfolding from_fusestatus
from_fusestatus-neg p zero h = absurd (omega arith)
from_fusestatus-neg p (suc n) h = refl

to_fusestatus-neg :
    (p : Platform) (n : ℕ) → 0 < n → to_fusestatus p (neg n) ≡ translate code p.errno n
unfolding to_fusestatus
to_fusestatus-neg p zero h = absurd (omega arith)
to_fusestatus-neg p (suc n) h = refl

-- An error that a system reports is encoded by its code of status.hpp.
pub from_fusestatus-errno :
    (p : Platform) (name : ErrnoName)
    → HasErrnos p
    → from_fusestatus p (neg (p.errno name)) ≡ neg (code name)
unfolding translate
from_fusestatus-errno p name known =
    rw
      (
        from_fusestatus-neg p (p.errno name) (known.positive name),
        find_case_total p.errno name errno_names known.distinct (IsOneOf-errno_names name),
        translate,
      )
      refl

pub to_fusestatus-code :
    (p : Platform) (name : ErrnoName) → to_fusestatus p (neg (code name)) ≡ neg (p.errno name)
unfolding translate
to_fusestatus-code p name =
    rw (to_fusestatus-neg p (code name) (pos_code name), find_case-code name, translate) refl

-- Two systems may number their errors differently: an error that the provider's system reports,
-- encoded by `from_fusestatus` there and decoded by `to_fusestatus` on the service, is the error
-- of the same name of the service. The provider's error numbers are positive and differ.
pub to_fusestatus-from_fusestatus :
    (provider service : Platform) (name : ErrnoName)
    → HasErrnos provider
    → to_fusestatus service (from_fusestatus provider (neg (provider.errno name)))
      ≡ neg (service.errno name)
to_fusestatus-from_fusestatus provider service name known =
    rw (from_fusestatus-errno provider name known) (to_fusestatus-code service name)

translate_same :
    (label target : ErrnoName → ℕ) (value : ℕ)
    → ((name : ErrnoName) → label name ≡ target name)
    → translate label target value ≡ neg value
unfolding translate
translate_same label target value same = elim (Option-cases (find_case label value errno_names)) [
  | inl e ↦ rw (e, translate) refl
  | inr (name, e) ↦
      rw (e, translate) (ap neg (sym (same name) ∙ find_case_label label value errno_names name e))
]

-- Where the system's numbers are those of status.hpp, as on Linux, no value is changed.
abbrev pub HasLinuxErrnos : Platform → Type 0
HasLinuxErrnos p = (name : ErrnoName) → p.errno name ≡ code name

pub from_fusestatus_id :
    (p : Platform) (value : ℤ) → HasLinuxErrnos p → from_fusestatus p value ≡ value
unfolding from_fusestatus
from_fusestatus_id p (pos value) linux = refl
from_fusestatus_id p (negsuc value) linux = translate_same p.errno code (suc value) linux

pub to_fusestatus_id : (p : Platform) (value : ℤ) → HasLinuxErrnos p → to_fusestatus p value ≡ value
unfolding to_fusestatus
to_fusestatus_id p (pos value) linux = refl
to_fusestatus_id p (negsuc value) linux =
    translate_same code p.errno (suc value) (λ name. sym (linux name))
