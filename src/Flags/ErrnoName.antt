-- ===== src/Flags/ErrnoName.antt =====
-- Names of the error numbers that `src/webfuse/filesystem/status.cpp` translates.
use webfuse.Base.{List, [], ◌∷◌}

pub data ErrnoName : Type 0 where
  e2big eacces eagain ebadf ebusy edestaddrreq edquot eexist efault efbig eintr einval eio :
      ErrnoName
  eisdir eloop emfile emlink enametoolong enfile enodata enodev enoent enomem enospc enosys :
      ErrnoName
  enotdir enotempty enotsup enxio eoverflow eperm epipe erange erofs etxtbsy exdev : ErrnoName

-- In the order of the cases of the source.
abbrev pub errno_names : List ErrnoName
errno_names =
    e2big ∷ eacces ∷ eagain ∷ ebadf ∷ ebusy ∷ edestaddrreq ∷ edquot ∷ eexist ∷ efault ∷ efbig
    ∷ eintr ∷ einval ∷ eio ∷ eisdir ∷ eloop ∷ emfile ∷ emlink ∷ enametoolong ∷ enfile ∷ enodata
    ∷ enodev ∷ enoent ∷ enomem ∷ enospc ∷ enosys ∷ enotdir ∷ enotempty ∷ enotsup ∷ enxio ∷ eoverflow
    ∷ eperm ∷ epipe ∷ erange ∷ erofs ∷ etxtbsy ∷ exdev ∷ []
