-- ===== src/Rpc/Files.antt =====
-- Operations on files without a result beside the status, each over one exchange that nothing
-- disturbs: what the provider's file system is asked, and what the caller gets.
use webfuse.Base.{
  ℕ, ◌%◌, ◌/◌, ◌^◌, ◌<◌, ◌≡◌, [], ◌∷◌, ◌++◌, Bool, if◌then◌else◌, append-nil, length,
}
use webfuse.Base.Int.{IsI32}
use webfuse.Flags.Platform.{Platform}
use webfuse.Flags.FileMode
use webfuse.Flags.FileMode.{HasFileModes, plain_mode}
use webfuse.Message.Bytes.{Bytes, be32, be64, counted}
use webfuse.Message.Data.{Timespec}
use webfuse.Message.Types.{RequestType, request_code}
use webfuse.Message.Reader.Structures.{short_time}
use webfuse.Message.Writer.Laws.{writer_laws, new_request-message, time_bytes}
use webfuse.Fs.{FilesystemI}
use webfuse.Fs.Remote
use webfuse.Rpc.Exchange.{exchange, arrive, head, response, perform-reply}
use webfuse.Rpc.Values.{mode_crosses, bool_crosses, be64_halves}
use webfuse.Rpc.Decode
use webfuse.Provider.{dispatch}

module _ (p q : Platform) {S : Type 0} (fs : FilesystemI S) (id : ℕ) (small : id < 2 ^ 32)
    (s : S) where
  -- Over one exchange that nothing disturbs, between systems with the file types of Linux, the
  -- provider's `chmod` gets the path and the permissions and known file type of the mode;
  -- `filesystem::chmod` returns its result translated by `to_fusestatus`. The path is shorter
  -- than 2 ^ 32, and the result is an `int32_t`.
  pub chmod-exchange :
      (path : Bytes) (mode : ℕ)
      → length path < 2 ^ 32
      → HasFileModes p
      → HasFileModes q
      → IsI32 (fs.chmod path (plain_mode mode) s).0
      → Remote.chmod p (exchange p q fs id) path mode s
        ≡ arrive p (fs.chmod path (plain_mode mode) s)
  unfolding Remote.chmod dispatch
  chmod-exchange path mode h0 a b r = rw (new_request-message) (
      simp writer_laws (
        perform-reply p q fs id small RequestType.chmod
          (counted path ++ be32 (FileMode.from_mode p mode)) _ s (fs.chmod path (plain_mode mode) s)
          r
          (rw (mode_crosses p q mode a b, append-nil (be32 (FileMode.from_mode p mode))) at
            (Decode.fs_chmod-at q fs (head id (request_code RequestType.chmod)) []
              (response q id RequestType.chmod) s path (FileMode.from_mode p mode) h0))))

  -- Over one exchange that nothing disturbs, the provider's `chown` gets the path, and the user
  -- and group ids modulo 2 ^ 32; `filesystem::chown` returns its result translated by
  -- `to_fusestatus`. The path is shorter than 2 ^ 32, and the result is an `int32_t`.
  pub chown-exchange :
      (path : Bytes) (uid gid : ℕ)
      → length path < 2 ^ 32
      → IsI32 (fs.chown path (uid % 2 ^ 32) (gid % 2 ^ 32) s).0
      → Remote.chown p (exchange p q fs id) path uid gid s
        ≡ arrive p (fs.chown path (uid % 2 ^ 32) (gid % 2 ^ 32) s)
  unfolding Remote.chown dispatch
  chown-exchange path uid gid h0 r = rw (new_request-message) (
      simp writer_laws (
        perform-reply p q fs id small RequestType.chown (counted path ++ (be32 uid ++ be32 gid)) _ s
          (fs.chown path (uid % 2 ^ 32) (gid % 2 ^ 32) s) r
          (rw (append-nil (be32 gid)) at (
            Decode.fs_chown-at q fs (head id (request_code RequestType.chown)) []
              (response q id RequestType.chown) s path uid gid h0))))

  -- Over one exchange that nothing disturbs, the provider's `truncate` gets the path, and the
  -- size and the handle modulo 2 ^ 32; `filesystem::truncate` returns its result translated by
  -- `to_fusestatus`. The path is shorter than 2 ^ 32, and the result is an `int32_t`.
  pub truncate-exchange :
      (path : Bytes) (size handle : ℕ)
      → length path < 2 ^ 32
      → IsI32 (fs.truncate path (size % 2 ^ 32) (handle % 2 ^ 32) s).0
      → Remote.truncate p (exchange p q fs id) path size handle s
        ≡ arrive p (fs.truncate path (size % 2 ^ 32) (handle % 2 ^ 32) s)
  unfolding Remote.truncate dispatch
  truncate-exchange path size handle h0 r = rw (new_request-message) (
      simp writer_laws (
        perform-reply p q fs id small RequestType.truncate
          (counted path ++ (be64 size ++ be64 handle)) _ s
          (fs.truncate path (size % 2 ^ 32) (handle % 2 ^ 32) s) r
          (rw (append-nil (be64 handle)) at (
            Decode.fs_truncate-at q fs (head id (request_code RequestType.truncate)) []
              (response q id RequestType.truncate) s path size handle h0))))

  -- Over one exchange that nothing disturbs, the provider's `fsync` gets the path, the same
  -- `is_datasync`, and the handle modulo 2 ^ 32; `filesystem::fsync` returns its result
  -- translated by `to_fusestatus`. The path is shorter than 2 ^ 32, and the result is an
  -- `int32_t`.
  pub fsync-exchange :
      (path : Bytes) (is_datasync : Bool) (handle : ℕ)
      → length path < 2 ^ 32
      → IsI32 (fs.fsync path is_datasync (handle % 2 ^ 32) s).0
      → Remote.fsync p (exchange p q fs id) path is_datasync handle s
        ≡ arrive p (fs.fsync path is_datasync (handle % 2 ^ 32) s)
  unfolding Remote.fsync dispatch
  fsync-exchange path is_datasync handle h0 r = rw (new_request-message) (
      simp writer_laws (
        perform-reply p q fs id small RequestType.fsync
          (counted path ++ ((if is_datasync then 1 else 0) ∷ be64 handle)) _ s
          (fs.fsync path is_datasync (handle % 2 ^ 32) s) r
          (rw (bool_crosses is_datasync, append-nil (be64 handle)) at
            (Decode.fs_fsync-at q fs (head id (request_code RequestType.fsync)) []
              (response q id RequestType.fsync) s path (if is_datasync then 1 else 0) handle h0))))

  -- Over one exchange that nothing disturbs, the provider's `utimens` gets the path, both times
  -- with their seconds and nanoseconds modulo 2 ^ 32, and the handle modulo 2 ^ 32;
  -- `filesystem::utimens` returns its result translated by `to_fusestatus`. The path is shorter
  -- than 2 ^ 32, and the result is an `int32_t`.
  pub utimens-exchange :
      (path : Bytes) (atime mtime : Timespec) (handle : ℕ)
      → length path < 2 ^ 32
      → IsI32 (fs.utimens path (short_time atime) (short_time mtime) (handle % 2 ^ 32) s).0
      → Remote.utimens p (exchange p q fs id) path atime mtime handle s
        ≡ arrive p (fs.utimens path (short_time atime) (short_time mtime) (handle % 2 ^ 32) s)
  unfolding Remote.utimens dispatch
  utimens-exchange path atime mtime handle h0 r = rw (new_request-message) (
      simp writer_laws (
        perform-reply p q fs id small RequestType.utimens
          (counted path ++ (time_bytes atime ++ (time_bytes mtime ++ be64 handle))) _ s
          (fs.utimens path (short_time atime) (short_time mtime) (handle % 2 ^ 32) s) r
          (rw (append-nil (be64 handle)) at (
            Decode.fs_utimens-at q fs (head id (request_code RequestType.utimens)) []
              (response q id RequestType.utimens) s path atime mtime handle h0))))

  -- Over one exchange that nothing disturbs, between systems with the file types of Linux, the
  -- provider's `mknod` gets the path, the permissions and known file type of the mode, and the
  -- upper 32 of the 64 bits of `rdev`; `filesystem::mknod` returns its result translated by
  -- `to_fusestatus`. The path is shorter than 2 ^ 32, and the result is an `int32_t`.
  pub mknod-exchange :
      (path : Bytes) (mode rdev : ℕ)
      → length path < 2 ^ 32
      → HasFileModes p
      → HasFileModes q
      → IsI32 (fs.mknod path (plain_mode mode) (rdev / 2 ^ 32 % 2 ^ 32) s).0
      → Remote.mknod p (exchange p q fs id) path mode rdev s
        ≡ arrive p (fs.mknod path (plain_mode mode) (rdev / 2 ^ 32 % 2 ^ 32) s)
  unfolding Remote.mknod dispatch
  mknod-exchange path mode rdev h0 a b r = rw (new_request-message) (
      simp writer_laws (
        perform-reply p q fs id small RequestType.mknod
          (counted path ++ (be32 (FileMode.from_mode p mode) ++ be64 rdev)) _ s
          (fs.mknod path (plain_mode mode) (rdev / 2 ^ 32 % 2 ^ 32) s) r
          (rw (mode_crosses p q mode a b, ← be64_halves rdev) at
            (Decode.fs_mknod-at q fs (head id (request_code RequestType.mknod)) (be32 rdev)
              (response q id RequestType.mknod) s path (FileMode.from_mode p mode) (rdev / 2 ^ 32)
              h0))))

  -- Over one exchange that nothing disturbs, the provider's `release` gets the path and the
  -- handle modulo 2 ^ 32; `filesystem::release` returns its result translated by `to_fusestatus`.
  -- The path is shorter than 2 ^ 32, and the result is an `int32_t`.
  pub release-exchange :
      (path : Bytes) (handle : ℕ)
      → length path < 2 ^ 32
      → IsI32 (fs.release path (handle % 2 ^ 32) s).0
      → Remote.release p (exchange p q fs id) path handle s
        ≡ arrive p (fs.release path (handle % 2 ^ 32) s)
  unfolding Remote.release dispatch
  release-exchange path handle h0 r = rw (new_request-message) (
      simp writer_laws (
        perform-reply p q fs id small RequestType.release (counted path ++ be64 handle) _ s
          (fs.release path (handle % 2 ^ 32) s) r
          (rw (append-nil (be64 handle)) at (
            Decode.fs_release-at q fs (head id (request_code RequestType.release)) []
              (response q id RequestType.release) s path handle h0))))

  -- Over one exchange that nothing disturbs, `filesystem::write` hands the provider's file system
  -- the same path and data, with the offset and the handle taken modulo 2 ^ 32, and returns the
  -- provider's result translated by `to_fusestatus`. Path and data are shorter than 2 ^ 32, and
  -- the result is an `int32_t`.
  pub write-exchange :
      (path buffer : Bytes) (offset handle : ℕ)
      → length path < 2 ^ 32
      → length buffer < 2 ^ 32
      → IsI32 (fs.write path buffer (offset % 2 ^ 32) (handle % 2 ^ 32) s).0
      → Remote.write p (exchange p q fs id) path buffer offset handle s
        ≡ arrive p (fs.write path buffer (offset % 2 ^ 32) (handle % 2 ^ 32) s)
  unfolding Remote.write dispatch
  write-exchange path buffer offset handle h0 h1 r = rw (new_request-message) (
      simp writer_laws (
        perform-reply p q fs id small RequestType.write
          (counted path ++ (counted buffer ++ (be64 offset ++ be64 handle))) _ s
          (fs.write path buffer (offset % 2 ^ 32) (handle % 2 ^ 32) s) r
          (rw (append-nil (be64 handle)) at (
            Decode.fs_write-at q fs (head id (request_code RequestType.write)) []
              (response q id RequestType.write) s path buffer offset handle h0 h1))))
