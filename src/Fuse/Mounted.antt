-- ===== src/Fuse/Mounted.antt =====
-- The callbacks of FUSE on the remote file system, over one exchange that nothing disturbs: what a program
-- that uses the mounted directory gets, and what the provider's file system is asked.
use webfuse.Base.{
  ℕ, ◌%◌, ◌^◌, ◌<◌, ◌≡◌, refl, List, [], ◌∷◌, Bool-cases, inl, inr, if◌then◌else◌, length, All,
  some, arith,
}
use webfuse.Base.Int.{pos, neg, IsI32, to_i32, to_u32, is_zero}
use mathlib.Core.List.{foldl}
use webfuse.Base.Text.{codes, c_string}
use webfuse.Flags.Platform.{Platform}
use webfuse.Flags.FileMode.{HasFileModes, plain_mode}
use webfuse.Flags.Status.Crossing.{HasLinuxErrnos}
use webfuse.Message.Bytes.{Bytes}
use webfuse.Fs.{FilesystemI, invalid_handle}
use webfuse.Fs.Remote.{filesystem}
use webfuse.Rpc.Exchange.{exchange, arrive}
use webfuse.Rpc.Buffers
use webfuse.Local
use webfuse.Local.{is_nonneg, local, opened, count_of, write_to, descriptor, full_path}
use webfuse.Local.Calls.{Posix}
use webfuse.Local.Contract.{IsPosix, local-IsFilesystem}
use webfuse.Local.Mounted.{write-mounted}
use webfuse.Fuse
use webfuse.Fuse.{FileInfo, print_text, fill_names, fs_readlink, fs_readdir, fs_create, fs_write}

fill_names-foldl :
    {F : Type 0} (filler : Bytes → F → F) (names : List Bytes) (buffer : F)
    → fill_names filler names buffer
      ≡ foldl (λ filled name. filler (c_string name) filled) buffer names
unfolding fill_names
fill_names-foldl filler [] buffer = refl
fill_names-foldl filler (name ∷ names) buffer =
    fill_names-foldl filler names (filler (c_string name) buffer)

module _ (p q : Platform) {S : Type 0} (fs : FilesystemI S) (id : ℕ) (small : id < 2 ^ 32)
    (linux : HasLinuxErrnos p) (s : S) where
  -- Over one exchange that nothing disturbs, `fs_readlink` prints the target that the provider's
  -- `readlink` gives into the buffer, cut to its size and ended by a zero, if the result is 0,
  -- and otherwise leaves the buffer, and returns this result. Path and target are shorter than 2
  -- ^ 32, the result is an `int32_t`, and the service has the error numbers of Linux.
  pub fs_readlink-mounted :
      (path buffer : Bytes)
      → length path < 2 ^ 32
      → length (fs.readlink path [] s).1 < 2 ^ 32
      → IsI32 (fs.readlink path [] s).0
      → fs_readlink (filesystem p (exchange p q fs id)) path buffer s ≡ (
          let (result, target, s') = fs.readlink path [] s in
          (result, if is_zero result then print_text target buffer else buffer, s'))
  unfolding fs_readlink filesystem
  fs_readlink-mounted path buffer h h' r =
      rw (Buffers.readlink-exchange p q fs id small linux s path [] h h' r)
        (elim (Bool-cases (is_zero (fs.readlink path [] s).0)) [
          | inl e ↦ rw (e) refl
          | inr e ↦ rw (e) refl
        ])

  -- Over one exchange that nothing disturbs, `fs_readdir` calls the filler of FUSE, from the
  -- first to the last, on ".", ".." and the names that the provider's `readdir` gives, each up to
  -- its first zero, if the result is 0, and leaves the buffer otherwise, and returns this result.
  -- The path, the list and every name are shorter than 2 ^ 32, the result is an `int32_t`, and
  -- the service has the error numbers of Linux.
  pub fs_readdir-mounted :
      {F : Type 0} (path : Bytes) (filler : Bytes → F → F) (buffer : F)
      → length path < 2 ^ 32
      → length (fs.readdir path [] s).1 < 2 ^ 32
      → All (λ name. length name < 2 ^ 32) (fs.readdir path [] s).1
      → IsI32 (fs.readdir path [] s).0
      → fs_readdir (filesystem p (exchange p q fs id)) path filler buffer s ≡ (
          let (result, names, s') = fs.readdir path [] s in
          (
            result,
            if is_zero result
                then foldl
                    (λ filled name. filler (c_string name) filled)
                    buffer
                    (codes "." ∷ codes ".." ∷ names)
                else buffer,
            s',
          ))
  unfolding fs_readdir filesystem
  fs_readdir-mounted path filler buffer h h' names r =
      rw
        (
          ← fill_names-foldl filler (codes "." ∷ codes ".." ∷ (fs.readdir path [] s).1) buffer,
          Buffers.readdir-exchange p q fs id small linux s path [] h h' names r,
        )
        (elim (Bool-cases (is_zero (fs.readdir path [] s).0)) [
          | inl e ↦ rw (e) refl
          | inr e ↦ rw (e) refl
        ])

-- A descriptor that the provider's system gave crosses to the service and back.
pub descriptor_crosses : (fd : ℕ) → fd < 2 ^ 31 → descriptor (fd % 2 ^ 32 % 2 ^ 32) ≡ pos fd
unfolding to_i32
descriptor_crosses fd h = ground arith

module _ (p q : Platform) {W : Type 0} (sys : Posix W) (base_path token : Bytes)
    (known : IsPosix sys) (id : ℕ) (small : id < 2 ^ 32) (linux : HasLinuxErrnos p) where
  pub fs_create-mounted :
      (path : Bytes) (mode : ℕ) (info : FileInfo) (fd : ℕ) (w w' : W)
      → length path < 2 ^ 32
      → HasFileModes p
      → HasFileModes q
      → sys.creat (full_path sys base_path token path) (plain_mode mode) w ≡ (pos fd, w')
      → fs_create (filesystem p (exchange p q (local sys base_path token) id)) path mode info w
        ≡ (pos 0, record info { fh = fd % 2 ^ 32 }, w')
  unfolding fs_create filesystem local Local.create opened
  fs_create-mounted path mode info fd w w' h a b e =
      rw
        (
          Buffers.create-exchange p q (local sys base_path token) id small linux w path mode info.fh
              h a b
              ((local-IsFilesystem sys base_path token known).create path (plain_mode mode)
                invalid_handle w),
          e,
        )
        refl

  -- A file created through FUSE in the directory of a provider, over exchanges that nothing
  -- disturbs, is written through FUSE by the descriptor that the provider's system gave: if its
  -- `creat` gives a descriptor, then a write with the file info that `fs_create` filled becomes
  -- one `pwrite` on this descriptor with the same data, at the offset modulo 2 ^ 32, and what it
  -- returns, as an `int`, or the negated error number if that is negative, comes back translated.
  -- Path and data are shorter than 2 ^ 32, both systems have the file types of Linux, and the
  -- service has its error numbers.
  pub fs_create-fs_write :
      (path buffer : Bytes) (mode offset : ℕ) (info : FileInfo) (fd : ℕ) (w w' : W)
      → length path < 2 ^ 32
      → length buffer < 2 ^ 32
      → HasFileModes p
      → HasFileModes q
      → fd < 2 ^ 31
      → sys.creat (full_path sys base_path token path) (plain_mode mode) w ≡ (pos fd, w')
      → (let mounted = filesystem p (exchange p q (local sys base_path token) id) in
          let (status, created, w'') = fs_create mounted path mode info w in
          fs_write mounted path buffer offset (some created) w'')
        ≡ (let (size, w1) = sys.pwrite (pos fd) buffer (offset % 2 ^ 32) w' in
            let result = to_i32 (to_u32 size) in
            arrive p (if is_nonneg result then result else neg (sys.errno w1), w1))
  unfolding fs_write Fuse.fs_get_handle filesystem count_of write_to
  fs_create-fs_write path buffer mode offset info fd w w' h h' a b bound e =
      rw
        (
          fs_create-mounted path mode info fd w w' h a b e,
          write-mounted p q sys base_path token known id small w' path buffer offset (fd % 2 ^ 32) h
              h',
          descriptor_crosses fd bound,
        )
        refl
