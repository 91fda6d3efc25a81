-- ===== src/Provider/Handlers.antt =====
-- The private methods `fs_...` of `provider::detail`, src/webfuse/provider.cpp.
use webfuse.Base.{[], Option, none, some, replicate}
use webfuse.Flags.Platform.{Platform}
use webfuse.Message.Bytes.{Bytes}
use webfuse.Message.Writer
use webfuse.Message.Writer.{Writer}
use webfuse.Message.Reader
use webfuse.Message.Reader.{Reader, ReadM, ◌>>=◌, return}
use webfuse.Fs.{FilesystemI, invalid_handle}
use webfuse.Provider.Serve.{
  blank_stat, blank_statistics, read_new_time, serve, reply, reply_unless_thrown, reply_with,
  reply_data, Handler,
}

module _ (p : Platform) {S : Type 0} (fs : FilesystemI S) where
  unfoldable pub fs_access : Handler S
  fs_access reader writer =
      serve
        (do path ← Reader.read_str; mode ← Reader.read_access_mode p; return (fs.access path mode))
        (reply writer) reader

  unfoldable pub fs_getattr : Handler S
  fs_getattr reader writer =
      serve (do path ← Reader.read_str; return (fs.getattr path blank_stat))
        (reply_with (Writer.write_attr p) writer) reader

  unfoldable pub fs_readlink : Handler S
  fs_readlink reader writer =
      serve (do path ← Reader.read_str; return (fs.readlink path []))
        (reply_with Writer.write_str writer) reader

  unfoldable pub fs_symlink : Handler S
  fs_symlink reader writer =
      serve (do from ← Reader.read_str; to ← Reader.read_str; return (fs.symlink from to))
        (reply_unless_thrown writer) reader

  unfoldable pub fs_link : Handler S
  fs_link reader writer =
      serve (do from ← Reader.read_str; to ← Reader.read_str; return (fs.link from to))
        (reply writer) reader

  unfoldable pub fs_rename : Handler S
  fs_rename reader writer =
      serve
        (do
          from ← Reader.read_str
          to ← Reader.read_str
          flags ← Reader.read_u8
          return (fs.rename from to flags))
        (reply writer) reader

  unfoldable pub fs_chmod : Handler S
  fs_chmod reader writer =
      serve (do path ← Reader.read_str; mode ← Reader.read_mode p; return (fs.chmod path mode))
        (reply writer) reader

  unfoldable pub fs_chown : Handler S
  fs_chown reader writer =
      serve
        (do
          path ← Reader.read_str
          uid ← Reader.read_u32
          gid ← Reader.read_u32
          return (fs.chown path uid gid))
        (reply writer) reader

  unfoldable pub fs_truncate : Handler S
  fs_truncate reader writer =
      serve
        (do
          path ← Reader.read_str
          size ← Reader.read_u64
          handle ← Reader.read_u64
          return (fs.truncate path size handle))
        (reply writer) reader

  unfoldable pub fs_fsync : Handler S
  fs_fsync reader writer =
      serve
        (do
          path ← Reader.read_str
          is_datasync ← Reader.read_bool
          handle ← Reader.read_u64
          return (fs.fsync path is_datasync handle))
        (reply writer) reader

  unfoldable pub fs_utimens : Handler S
  unfolding read_new_time
  fs_utimens reader writer =
      serve
        (do
          path ← Reader.read_str
          atime ← read_new_time
          mtime ← read_new_time
          handle ← Reader.read_u64
          return (fs.utimens path atime mtime handle))
        (reply writer) reader

  unfoldable pub fs_open : Handler S
  fs_open reader writer =
      serve
        (do
          path ← Reader.read_str
          flags ← Reader.read_openflags p
          return (fs.open_file path flags invalid_handle))
        (reply_with Writer.write_u64 writer) reader

  unfoldable pub fs_mknod : Handler S
  fs_mknod reader writer =
      serve
        (do
          path ← Reader.read_str
          mode ← Reader.read_mode p
          dev ← Reader.read_u32
          return (fs.mknod path mode dev))
        (reply writer) reader

  unfoldable pub fs_create : Handler S
  fs_create reader writer =
      serve
        (do
          path ← Reader.read_str
          mode ← Reader.read_mode p
          return (fs.create path mode invalid_handle))
        (reply_with Writer.write_u64 writer) reader

  unfoldable pub fs_release : Handler S
  fs_release reader writer =
      serve (do path ← Reader.read_str; handle ← Reader.read_u64; return (fs.release path handle))
        (reply writer) reader

  unfoldable pub fs_unlink : Handler S
  fs_unlink reader writer =
      serve (do path ← Reader.read_str; return (fs.unlink path)) (reply writer) reader

  unfoldable pub fs_read : Handler S
  fs_read reader writer =
      serve
        (do
          path ← Reader.read_str
          size ← Reader.read_u32
          offset ← Reader.read_u64
          handle ← Reader.read_u64
          return (fs.read path offset handle (replicate size 0)))
        (reply_data writer) reader

  unfoldable pub fs_write : Handler S
  fs_write reader writer =
      serve
        (do
          path ← Reader.read_str
          buffer ← Reader.read_bytes
          offset ← Reader.read_u64
          handle ← Reader.read_u64
          return (fs.write path buffer offset handle))
        (reply writer) reader

  unfoldable pub fs_mkdir : Handler S
  fs_mkdir reader writer =
      serve (do path ← Reader.read_str; mode ← Reader.read_mode p; return (fs.mkdir path mode))
        (reply writer) reader

  unfoldable pub fs_rmdir : Handler S
  fs_rmdir reader writer =
      serve (do path ← Reader.read_str; return (fs.rmdir path)) (reply writer) reader

  unfoldable pub fs_readdir : Handler S
  fs_readdir reader writer =
      serve (do path ← Reader.read_str; return (fs.readdir path []))
        (reply_with Writer.write_strings writer) reader

  unfoldable pub fs_statfs : Handler S
  fs_statfs reader writer =
      serve (do path ← Reader.read_str; return (fs.statfs path blank_statistics))
        (reply_with Writer.write_statistics writer) reader

  -- The request has no arguments; the string has no result before it.
  abbrev pub reply_credentials : Writer → Option Bytes × S → Option Writer × S
  reply_credentials writer (none, s) = (none, s)
  reply_credentials writer (some credentials, s) = (some (Writer.write_str credentials writer), s)

  unfoldable pub fs_get_credentials : Handler S
  fs_get_credentials reader writer s = reply_credentials writer (fs.get_credentials s)
