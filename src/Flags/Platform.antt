-- ===== src/Flags/Platform.antt =====
-- Constants of system headers: values that the compiler takes from outside the repository.
use webfuse.Base.{ℕ}
use webfuse.Flags.ErrnoName.{ErrnoName}

-- The `O_...` flags of <fcntl.h> that src/webfuse/filesystem/openflags.cpp names.
pub data OpenFlag : Type 0 where
  rdonly wronly rdwr append async cloexec creat direct directory dsync excl : OpenFlag
  largefile noatime noctty nofollow nonblock ndelay path sync tmpfile trunc : OpenFlag

pub record Platform : Type 0 where
  -- `LWS_PRE` of <libwebsockets.h>: bytes that are kept free in front of a message
  pub lws_pre : ℕ
  -- <errno.h>
  pub errno : ErrnoName → ℕ
  -- `R_OK`, `W_OK` and `X_OK` of <unistd.h>
  pub r_ok : ℕ
  pub w_ok : ℕ
  pub x_ok : ℕ
  -- `S_IFMT` and the file types of <sys/stat.h>
  pub s_ifmt : ℕ
  pub s_ifreg : ℕ
  pub s_ifdir : ℕ
  pub s_ifchr : ℕ
  pub s_ifblk : ℕ
  pub s_ififo : ℕ
  pub s_iflnk : ℕ
  pub s_ifsock : ℕ
  -- <fcntl.h>
  pub open_flag : OpenFlag → ℕ
  -- `RENAME_NOREPLACE` and `RENAME_EXCHANGE` of <stdio.h>
  pub rename_noreplace : ℕ
  pub rename_exchange : ℕ
