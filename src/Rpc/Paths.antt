-- ===== src/Rpc/Paths.antt =====
-- Operations on names, each over one exchange that nothing
-- disturbs: what the provider's file system is asked, and what the caller gets.
use webfuse.Base.{ℕ, ◌%◌, ◌^◌, ◌<◌, ◌≡◌, [], ◌∷◌, ◌++◌, append-nil, length, some}
use webfuse.Base.Int.{ℤ, IsI32}
use webfuse.Flags.Platform.{Platform}
use webfuse.Flags.AccessMode
use webfuse.Flags.AccessMode.{HasAccessModes}
use webfuse.Flags.FileMode
use webfuse.Flags.FileMode.{HasFileModes, plain_mode}
use webfuse.Flags.RenameFlags.{HasRenameFlags, rename_flags}
use webfuse.Message.Bytes.{Bytes, be32, counted}
use webfuse.Message.Types.{RequestType, request_code}
use webfuse.Message.Writer.Laws.{writer_laws, new_request-message}
use webfuse.Fs.{FilesystemI}
use webfuse.Fs.Remote
use webfuse.Rpc.Exchange.{exchange, arrive, head, response, perform-reply}
use webfuse.Rpc.Values.{access_mode_crosses, mode_crosses, rename_flags_cross}
use webfuse.Rpc.Decode
use webfuse.Provider.{dispatch}

module _ (p q : Platform) {S : Type 0} (fs : FilesystemI S) (id : ℕ) (small : id < 2 ^ 32)
    (s : S) where
  -- Over one exchange that nothing disturbs, between systems with the access modes of Linux, the
  -- provider's `access` gets the path and the lowest three bits of the mode; `filesystem::access`
  -- returns its result translated by `to_fusestatus`. The path is shorter than 2 ^ 32, and the
  -- result is an `int32_t`.
  pub access-exchange :
      (path : Bytes) (mode : ℕ)
      → length path < 2 ^ 32
      → HasAccessModes p
      → HasAccessModes q
      → IsI32 (fs.access path (mode % 8) s).0
      → Remote.access p (exchange p q fs id) path mode s ≡ arrive p (fs.access path (mode % 8) s)
  unfolding Remote.access dispatch
  access-exchange path mode h0 a b r = rw (new_request-message) (
      simp writer_laws (
        perform-reply p q fs id small RequestType.access
          (counted path ++ AccessMode.from_int p mode ∷ []) _ s (fs.access path (mode % 8) s) r
          (rw (access_mode_crosses p q mode a b) at (
            Decode.fs_access-at q fs (head id (request_code RequestType.access)) []
              (response q id RequestType.access) s path (AccessMode.from_int p mode) h0))))

  -- Over one exchange that nothing disturbs, the provider's `symlink` gets the target and the
  -- path of the link in the same order; `filesystem::symlink` returns its result translated by
  -- `to_fusestatus`. Both are shorter than 2 ^ 32, and the result is an `int32_t`.
  pub symlink-exchange :
      (target linkpath : Bytes) (result : ℤ) (s' : S)
      → length target < 2 ^ 32
      → length linkpath < 2 ^ 32
      → IsI32 result
      → fs.symlink target linkpath s ≡ (some result, s')
      → Remote.symlink p (exchange p q fs id) target linkpath s ≡ arrive p (result, s')
  unfolding Remote.symlink dispatch
  symlink-exchange target linkpath result s' h0 h1 r e = rw (new_request-message) (
      simp writer_laws (
        perform-reply p q fs id small RequestType.symlink (counted target ++ counted linkpath) _ s
          (result, s') r
          (rw (append-nil (counted linkpath), e) at
            (Decode.fs_symlink-at q fs (head id (request_code RequestType.symlink)) []
              (response q id RequestType.symlink) s target linkpath h0 h1))))

  pub link-exchange :
      (old_path new_path : Bytes)
      → length old_path < 2 ^ 32
      → length new_path < 2 ^ 32
      → IsI32 (fs.link old_path new_path s).0
      → Remote.link p (exchange p q fs id) old_path new_path s
        ≡ arrive p (fs.link old_path new_path s)
  unfolding Remote.link dispatch
  link-exchange old_path new_path h0 h1 r = rw (new_request-message) (
      simp writer_laws (
        perform-reply p q fs id small RequestType.link (counted old_path ++ counted new_path) _ s
          (fs.link old_path new_path s) r
          (rw (append-nil (counted new_path)) at (
            Decode.fs_link-at q fs (head id (request_code RequestType.link)) []
              (response q id RequestType.link) s old_path new_path h0 h1))))

  -- Over one exchange that nothing disturbs, where the service has the rename flags of Linux, the
  -- provider's `rename` gets both paths in the same order and the lowest two bits of the flags;
  -- `filesystem::rename` returns its result translated by `to_fusestatus`. The paths are shorter
  -- than 2 ^ 32, and the result is an `int32_t`.
  pub rename-exchange :
      (old_path new_path : Bytes) (flags : ℕ)
      → length old_path < 2 ^ 32
      → length new_path < 2 ^ 32
      → HasRenameFlags p
      → IsI32 (fs.rename old_path new_path (flags % 4) s).0
      → Remote.rename p (exchange p q fs id) old_path new_path flags s
        ≡ arrive p (fs.rename old_path new_path (flags % 4) s)
  unfolding Remote.rename dispatch
  rename-exchange old_path new_path flags h0 h1 a r = rw (new_request-message) (
      simp writer_laws (
        perform-reply p q fs id small RequestType.rename
          (counted old_path ++ (counted new_path ++ rename_flags p flags ∷ [])) _ s
          (fs.rename old_path new_path (flags % 4) s) r
          (rw (rename_flags_cross p flags a) at (
            Decode.fs_rename-at q fs (head id (request_code RequestType.rename)) []
              (response q id RequestType.rename) s old_path new_path (rename_flags p flags) h0
              h1))))

  pub unlink-exchange :
      (path : Bytes)
      → length path < 2 ^ 32
      → IsI32 (fs.unlink path s).0
      → Remote.unlink p (exchange p q fs id) path s ≡ arrive p (fs.unlink path s)
  unfolding Remote.unlink dispatch
  unlink-exchange path h0 r = rw (new_request-message) (
      simp writer_laws (
        perform-reply p q fs id small RequestType.unlink (counted path) _ s (fs.unlink path s) r (
          rw (append-nil (counted path)) at (
            Decode.fs_unlink-at q fs (head id (request_code RequestType.unlink)) []
              (response q id RequestType.unlink) s path h0))))

  -- Over one exchange that nothing disturbs, between systems with the file types of Linux, the
  -- provider's `mkdir` gets the path and the permissions and known file type of the mode;
  -- `filesystem::mkdir` returns its result translated by `to_fusestatus`. The path is shorter
  -- than 2 ^ 32, and the result is an `int32_t`.
  pub mkdir-exchange :
      (path : Bytes) (mode : ℕ)
      → length path < 2 ^ 32
      → HasFileModes p
      → HasFileModes q
      → IsI32 (fs.mkdir path (plain_mode mode) s).0
      → Remote.mkdir p (exchange p q fs id) path mode s
        ≡ arrive p (fs.mkdir path (plain_mode mode) s)
  unfolding Remote.mkdir dispatch
  mkdir-exchange path mode h0 a b r = rw (new_request-message) (
      simp writer_laws (
        perform-reply p q fs id small RequestType.mkdir
          (counted path ++ be32 (FileMode.from_mode p mode)) _ s (fs.mkdir path (plain_mode mode) s)
          r
          (rw (mode_crosses p q mode a b, append-nil (be32 (FileMode.from_mode p mode))) at
            (Decode.fs_mkdir-at q fs (head id (request_code RequestType.mkdir)) []
              (response q id RequestType.mkdir) s path (FileMode.from_mode p mode) h0))))

  -- Over one exchange that nothing disturbs, the provider's `rmdir` gets the path;
  -- `filesystem::rmdir` returns its result translated by `to_fusestatus`. The path is shorter
  -- than 2 ^ 32, and the result is an `int32_t`.
  pub rmdir-exchange :
      (path : Bytes)
      → length path < 2 ^ 32
      → IsI32 (fs.rmdir path s).0
      → Remote.rmdir p (exchange p q fs id) path s ≡ arrive p (fs.rmdir path s)
  unfolding Remote.rmdir dispatch
  rmdir-exchange path h0 r = rw (new_request-message) (
      simp writer_laws (
        perform-reply p q fs id small RequestType.rmdir (counted path) _ s (fs.rmdir path s) r (
          rw (append-nil (counted path)) at (
            Decode.fs_rmdir-at q fs (head id (request_code RequestType.rmdir)) []
              (response q id RequestType.rmdir) s path h0))))
