-- ===== src/Rpc/Decode.antt =====
-- What each handler of the provider makes of an encoded request. Bytes behind the arguments are
-- allowed, and change nothing.
use webfuse.Base.{ℕ, ◌%◌, ◌^◌, ◌<◌, ◌≡◌, ◌==◌, [], ◌∷◌, ◌++◌, length, replicate, some}
use webfuse.Base.Int.{to_i32, to_u32}
use webfuse.Flags.Platform.{Platform}
use webfuse.Flags.AccessMode
use webfuse.Flags.FileMode
use webfuse.Flags.OpenFlags
use webfuse.Message.Bytes.{Bytes, be32, be64, counted}
use webfuse.Message.Data.{Timespec}
use webfuse.Message.Reader.At.{at, reader_laws}
use webfuse.Message.Reader.Structures.{
  read_time-at, read_mode-at, read_access_mode-at, read_openflags-at, short_time,
}
use webfuse.Message.Writer
use webfuse.Message.Writer.{Writer}
use webfuse.Message.Writer.Laws.{time_bytes}
use webfuse.Fs.{FilesystemI, invalid_handle}
use webfuse.Provider.Serve.{
  serve, reply, reply_unless_thrown, reply_with, reply_data, read_new_time, blank_stat,
  blank_statistics,
}
use webfuse.Provider.Handlers

module _ (front extra : Bytes) where
  read_new_time-at :
      (t : Timespec)
      → read_new_time (at front (time_bytes t ++ extra))
        ≡ some (short_time t, at (front ++ time_bytes t) extra)
  unfolding read_new_time
  read_new_time-at t = simp (read_time-at, read_new_time)

ruleset argument_laws =
    (reader_laws, serve, read_mode-at, read_access_mode-at, read_openflags-at, read_new_time-at)

module _ (p : Platform) {S : Type 0} (fs : FilesystemI S) (front extra : Bytes) (w : Writer)
    (s : S) where
  pub fs_access-at :
      (path : Bytes) (mode : ℕ)
      → length path < 2 ^ 32
      → Handlers.fs_access p fs (at front (counted path ++ (mode ∷ extra))) w s
        ≡ reply w (fs.access path (AccessMode.to_int p (mode % 2 ^ 8)) s)
  unfolding Handlers.fs_access
  fs_access-at path mode h0 = simp (argument_laws, h0)

  pub fs_getattr-at :
      (path : Bytes)
      → length path < 2 ^ 32
      → Handlers.fs_getattr p fs (at front (counted path ++ extra)) w s
        ≡ reply_with (Writer.write_attr p) w (fs.getattr path blank_stat s)
  unfolding Handlers.fs_getattr
  fs_getattr-at path h0 = simp (argument_laws, h0)

  pub fs_readlink-at :
      (path : Bytes)
      → length path < 2 ^ 32
      → Handlers.fs_readlink p fs (at front (counted path ++ extra)) w s
        ≡ reply_with Writer.write_str w (fs.readlink path [] s)
  unfolding Handlers.fs_readlink
  fs_readlink-at path h0 = simp (argument_laws, h0)

  pub fs_symlink-at :
      (from : Bytes) (to : Bytes)
      → length from < 2 ^ 32
      → length to < 2 ^ 32
      → Handlers.fs_symlink p fs (at front (counted from ++ (counted to ++ extra))) w s
        ≡ reply_unless_thrown w (fs.symlink from to s)
  unfolding Handlers.fs_symlink
  fs_symlink-at from to h0 h1 = simp (argument_laws, h0, h1)

  pub fs_link-at :
      (from : Bytes) (to : Bytes)
      → length from < 2 ^ 32
      → length to < 2 ^ 32
      → Handlers.fs_link p fs (at front (counted from ++ (counted to ++ extra))) w s
        ≡ reply w (fs.link from to s)
  unfolding Handlers.fs_link
  fs_link-at from to h0 h1 = simp (argument_laws, h0, h1)

  pub fs_rename-at :
      (from : Bytes) (to : Bytes) (flags : ℕ)
      → length from < 2 ^ 32
      → length to < 2 ^ 32
      → Handlers.fs_rename p fs (at front (counted from ++ (counted to ++ (flags ∷ extra)))) w s
        ≡ reply w (fs.rename from to (flags % 2 ^ 8) s)
  unfolding Handlers.fs_rename
  fs_rename-at from to flags h0 h1 = simp (argument_laws, h0, h1)

  pub fs_chmod-at :
      (path : Bytes) (mode : ℕ)
      → length path < 2 ^ 32
      → Handlers.fs_chmod p fs (at front (counted path ++ (be32 mode ++ extra))) w s
        ≡ reply w (fs.chmod path (FileMode.to_mode p (mode % 2 ^ 32)) s)
  unfolding Handlers.fs_chmod
  fs_chmod-at path mode h0 = simp (argument_laws, h0)

  pub fs_chown-at :
      (path : Bytes) (uid : ℕ) (gid : ℕ)
      → length path < 2 ^ 32
      → Handlers.fs_chown p fs (at front (counted path ++ (be32 uid ++ (be32 gid ++ extra)))) w s
        ≡ reply w (fs.chown path (uid % 2 ^ 32) (gid % 2 ^ 32) s)
  unfolding Handlers.fs_chown
  fs_chown-at path uid gid h0 = simp (argument_laws, h0)

  pub fs_truncate-at :
      (path : Bytes) (size : ℕ) (handle : ℕ)
      → length path < 2 ^ 32
      → Handlers.fs_truncate p fs
          (at front (counted path ++ (be64 size ++ (be64 handle ++ extra))))
          w
          s
        ≡ reply w (fs.truncate path (size % 2 ^ 32) (handle % 2 ^ 32) s)
  unfolding Handlers.fs_truncate
  fs_truncate-at path size handle h0 = simp (argument_laws, h0)

  pub fs_fsync-at :
      (path : Bytes) (sync : ℕ) (handle : ℕ)
      → length path < 2 ^ 32
      → Handlers.fs_fsync p fs (at front (counted path ++ (sync ∷ (be64 handle ++ extra)))) w s
        ≡ reply w (fs.fsync path (1 == sync % 2 ^ 8) (handle % 2 ^ 32) s)
  unfolding Handlers.fs_fsync
  fs_fsync-at path sync handle h0 = simp (argument_laws, h0)

  pub fs_utimens-at :
      (path : Bytes) (atime : Timespec) (mtime : Timespec) (handle : ℕ)
      → length path < 2 ^ 32
      → Handlers.fs_utimens p fs
          (at front
            (counted path ++ (time_bytes atime ++ (time_bytes mtime ++ (be64 handle ++ extra)))))
          w
          s
        ≡ reply w (fs.utimens path (short_time atime) (short_time mtime) (handle % 2 ^ 32) s)
  unfolding Handlers.fs_utimens
  fs_utimens-at path atime mtime handle h0 = simp (argument_laws, h0)

  pub fs_open-at :
      (path : Bytes) (flags : ℕ)
      → length path < 2 ^ 32
      → Handlers.fs_open p fs (at front (counted path ++ (be32 flags ++ extra))) w s
        ≡ reply_with Writer.write_u64 w (
            fs.open_file path
              (OpenFlags.to_int p (to_u32 (to_i32 (flags % 2 ^ 32))))
              invalid_handle
              s)
  unfolding Handlers.fs_open
  fs_open-at path flags h0 = simp (argument_laws, h0)

  pub fs_mknod-at :
      (path : Bytes) (mode : ℕ) (dev : ℕ)
      → length path < 2 ^ 32
      → Handlers.fs_mknod p fs (at front (counted path ++ (be32 mode ++ (be32 dev ++ extra)))) w s
        ≡ reply w (fs.mknod path (FileMode.to_mode p (mode % 2 ^ 32)) (dev % 2 ^ 32) s)
  unfolding Handlers.fs_mknod
  fs_mknod-at path mode dev h0 = simp (argument_laws, h0)

  pub fs_create-at :
      (path : Bytes) (mode : ℕ)
      → length path < 2 ^ 32
      → Handlers.fs_create p fs (at front (counted path ++ (be32 mode ++ extra))) w s
        ≡ reply_with Writer.write_u64 w
            (fs.create path (FileMode.to_mode p (mode % 2 ^ 32)) invalid_handle s)
  unfolding Handlers.fs_create
  fs_create-at path mode h0 = simp (argument_laws, h0)

  pub fs_release-at :
      (path : Bytes) (handle : ℕ)
      → length path < 2 ^ 32
      → Handlers.fs_release p fs (at front (counted path ++ (be64 handle ++ extra))) w s
        ≡ reply w (fs.release path (handle % 2 ^ 32) s)
  unfolding Handlers.fs_release
  fs_release-at path handle h0 = simp (argument_laws, h0)

  pub fs_unlink-at :
      (path : Bytes)
      → length path < 2 ^ 32
      → Handlers.fs_unlink p fs (at front (counted path ++ extra)) w s ≡ reply w (fs.unlink path s)
  unfolding Handlers.fs_unlink
  fs_unlink-at path h0 = simp (argument_laws, h0)

  pub fs_read-at :
      (path : Bytes) (size : ℕ) (offset : ℕ) (handle : ℕ)
      → length path < 2 ^ 32
      → Handlers.fs_read p fs
          (at front (counted path ++ (be32 size ++ (be64 offset ++ (be64 handle ++ extra)))))
          w
          s
        ≡ reply_data w
            (fs.read path (offset % 2 ^ 32) (handle % 2 ^ 32) (replicate (size % 2 ^ 32) 0) s)
  unfolding Handlers.fs_read
  fs_read-at path size offset handle h0 = simp (argument_laws, h0)

  pub fs_write-at :
      (path : Bytes) (buffer : Bytes) (offset : ℕ) (handle : ℕ)
      → length path < 2 ^ 32
      → length buffer < 2 ^ 32
      → Handlers.fs_write p fs
          (at front (counted path ++ (counted buffer ++ (be64 offset ++ (be64 handle ++ extra)))))
          w
          s
        ≡ reply w (fs.write path buffer (offset % 2 ^ 32) (handle % 2 ^ 32) s)
  unfolding Handlers.fs_write
  fs_write-at path buffer offset handle h0 h1 = simp (argument_laws, h0, h1)

  pub fs_mkdir-at :
      (path : Bytes) (mode : ℕ)
      → length path < 2 ^ 32
      → Handlers.fs_mkdir p fs (at front (counted path ++ (be32 mode ++ extra))) w s
        ≡ reply w (fs.mkdir path (FileMode.to_mode p (mode % 2 ^ 32)) s)
  unfolding Handlers.fs_mkdir
  fs_mkdir-at path mode h0 = simp (argument_laws, h0)

  pub fs_readdir-at :
      (path : Bytes)
      → length path < 2 ^ 32
      → Handlers.fs_readdir p fs (at front (counted path ++ extra)) w s
        ≡ reply_with Writer.write_strings w (fs.readdir path [] s)
  unfolding Handlers.fs_readdir
  fs_readdir-at path h0 = simp (argument_laws, h0)

  pub fs_rmdir-at :
      (path : Bytes)
      → length path < 2 ^ 32
      → Handlers.fs_rmdir p fs (at front (counted path ++ extra)) w s ≡ reply w (fs.rmdir path s)
  unfolding Handlers.fs_rmdir
  fs_rmdir-at path h0 = simp (argument_laws, h0)

  pub fs_statfs-at :
      (path : Bytes)
      → length path < 2 ^ 32
      → Handlers.fs_statfs p fs (at front (counted path ++ extra)) w s
        ≡ reply_with Writer.write_statistics w (fs.statfs path blank_statistics s)
  unfolding Handlers.fs_statfs
  fs_statfs-at path h0 = simp (argument_laws, h0)
