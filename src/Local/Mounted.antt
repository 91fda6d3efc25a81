-- ===== src/Local/Mounted.antt =====
-- The directory of a provider, as the service that mounts it sees it, over one exchange that nothing
-- disturbs: which call of the provider's system an operation of the service becomes.
use webfuse.Base.{
  ℕ, ◌%◌, ◌^◌, ◌<◌, ◌≡◌, refl, ◌∙◌, false, ◌==◌, ≢→==, length, replicate, length-replicate, subst,
  ap, Bool-cases, inl, inr, if◌then◌else◌, arith,
}
use webfuse.Base.Int.{ℤ, neg, to_i32, to_u32}
use webfuse.Flags.Platform.{Platform}
use webfuse.Flags.Status.Crossing.{HasLinuxErrnos}
use webfuse.Message.Bytes.{Bytes}
use webfuse.Message.Data.{Timespec}
use webfuse.Message.Reader.Structures.{short_time}
use webfuse.Fs.{invalid_handle}
use webfuse.Fs.Contract.{IsRead}
use webfuse.Fs.Remote
use webfuse.Rpc.Exchange.{exchange, arrive}
use webfuse.Rpc.Files
use webfuse.Rpc.Read
use webfuse.Rpc.Read.{receive_data}
use webfuse.Local
use webfuse.Local.{
  is_nonneg, local, status_of, count_of, read_count, descriptor, full_path, write_to, read_opened,
}
use webfuse.Local.Calls.{Posix}
use webfuse.Local.Contract.{IsPosix, local-IsFilesystem}

-- No handle of 32 bits is the invalid one.
short_handle : (handle : ℕ) → (handle % 2 ^ 32 == invalid_handle) ≡ false
short_handle handle = ≢→== (handle % 2 ^ 32) invalid_handle (omega arith)

module _ (p q : Platform) {W : Type 0} (sys : Posix W) (base_path token : Bytes)
    (known : IsPosix sys) (id : ℕ) (small : id < 2 ^ 32) (w : W) where
  -- Over one exchange that nothing disturbs, a truncation in the directory of a provider is
  -- always `ftruncate` of the descriptor that the lower 32 bits of the handle denote, to the size
  -- modulo 2 ^ 32, also where the handle is the invalid one: `truncate` by path is never called.
  -- The path is shorter than 2 ^ 32.
  pub truncate-mounted :
      (path : Bytes) (size handle : ℕ)
      → length path < 2 ^ 32
      → Remote.truncate p (exchange p q (local sys base_path token) id) path size handle w
        ≡ arrive p (
            status_of sys base_path token
              (sys.ftruncate (descriptor (handle % 2 ^ 32)) (size % 2 ^ 32) w))
  unfolding local Local.truncate
  truncate-mounted path size handle h =
      Files.truncate-exchange p q (local sys base_path token) id small w path size handle h (
        (local-IsFilesystem sys base_path token known).truncate path (size % 2 ^ 32)
          (handle % 2 ^ 32) w)
      ∙ rw (short_handle handle) refl

  pub utimens-mounted :
      (path : Bytes) (atime mtime : Timespec) (handle : ℕ)
      → length path < 2 ^ 32
      → Remote.utimens p (exchange p q (local sys base_path token) id) path atime mtime handle w
        ≡ arrive p (
            status_of sys base_path token
              (sys.futimens (descriptor (handle % 2 ^ 32)) (short_time atime) (short_time mtime) w))
  unfolding local Local.utimens
  utimens-mounted path atime mtime handle h =
      Files.utimens-exchange p q (local sys base_path token) id small w path atime mtime handle h (
        (local-IsFilesystem sys base_path token known).utimens path (short_time atime)
          (short_time mtime) (handle % 2 ^ 32) w)
      ∙ rw (short_handle handle) refl

  pub write-mounted :
      (path buffer : Bytes) (offset handle : ℕ)
      → length path < 2 ^ 32
      → length buffer < 2 ^ 32
      → Remote.write p (exchange p q (local sys base_path token) id) path buffer offset handle w
        ≡ arrive p (
            count_of sys base_path token (
              write_to sys base_path token
                (descriptor (handle % 2 ^ 32))
                buffer
                (offset % 2 ^ 32)
                w))
  unfolding local Local.write
  write-mounted path buffer offset handle h h' =
      Files.write-exchange p q (local sys base_path token) id small w path buffer offset handle h h'
        ((local-IsFilesystem sys base_path token known).write path buffer (offset % 2 ^ 32)
          (handle % 2 ^ 32) w)
      ∙ rw (short_handle handle) refl

  -- What the calls of the system are that a read by path makes.
  read_opened-closes :
      (opened : ℤ × W) (buffer : Bytes) (offset : ℕ)
      → read_count sys base_path token (read_opened sys base_path token opened buffer offset) ≡ (
          let (fd, w1) = opened in
          let (size, read, w2) = sys.pread fd buffer offset w1 in
          let (closed, w3) = sys.close fd w2 in
          let result = to_i32 (to_u32 size) in
          if is_nonneg fd
          then (if is_nonneg result then result else neg (sys.errno w3), read, w3)
          else (neg (sys.errno w1), buffer, w1))
  unfolding read_count read_opened Local.read_from count_of
  read_opened-closes (fd, w1) buffer offset = elim (Bool-cases (is_nonneg fd)) [
    | inl e ↦ rw (e) refl
    | inr e ↦ rw (e) refl
  ]

  -- Over one exchange that nothing disturbs, a read in the directory of a provider never uses the
  -- handle: the file is opened by its path for reading, read by one `pread` at the offset modulo
  -- 2 ^ 32 into a zeroed buffer of the caller's size, and closed. The caller gets what `pread`
  -- returned, as an `int`, and the bytes; if that is negative, the negated error number as it is
  -- after the `close`, and if the file does not open, the negated error number, and nothing is
  -- read or closed. Path and buffer are shorter than 2 ^ 32, and the service has the error
  -- numbers of Linux.
  pub read-mounted :
      (path old : Bytes) (offset handle : ℕ)
      → HasLinuxErrnos p
      → length path < 2 ^ 32
      → length old < 2 ^ 32
      → Remote.read p (exchange p q (local sys base_path token) id) path offset handle old w
        ≡ receive_data old (
            let (fd, w1) = sys.open_path (full_path sys base_path token path) sys.o_rdonly w in
            let (size, buffer, w2) = sys.pread fd (replicate (length old) 0) (offset % 2 ^ 32) w1 in
            let (closed, w3) = sys.close fd w2 in
            let result = to_i32 (to_u32 size) in
            if is_nonneg fd
            then (if is_nonneg result then result else neg (sys.errno w3), buffer, w3)
            else (neg (sys.errno w1), replicate (length old) 0, w1))
  unfolding local Local.read
  read-mounted path old offset handle linux h bounded =
      Read.read-exchange p q (local sys base_path token) id small linux path offset handle old w h
        bounded
        (subst
          (λ n. IsRead n (
            (local sys base_path token).read path (offset % 2 ^ 32) (handle % 2 ^ 32)
              (replicate (length old) 0) w))
          (length-replicate (length old) 0)
          ((local-IsFilesystem sys base_path token known).read path (offset % 2 ^ 32)
            (handle % 2 ^ 32) (replicate (length old) 0) w))
      ∙ rw (short_handle handle) (
          ap (receive_data old) (
            read_opened-closes (sys.open_path (full_path sys base_path token path) sys.o_rdonly w)
              (replicate (length old) 0) (offset % 2 ^ 32)))
