-- ===== src/Local.antt =====
-- The file system of the provider program, src/provider_main.cpp: a directory of the provider's system.
-- The calls of the system are a parameter.
pub mod Calls
pub mod Contract
pub mod Mounted
pub mod Links
pub mod Listing
use webfuse.Base.{
  ℕ, zero, suc, ◌-◌, ◌%◌, ◌^◌, List, [], ◌∷◌, ◌++◌, Bool, true, false, not, Option, none, some,
  length, take, ltb, leb, ◌==◌, if◌then◌else◌,
}
use webfuse.Base.Int.{ℤ, pos, negsuc, neg, to_i32, to_u32, is_zero, magnitude}
use webfuse.Base.Text.{codes, c_string}
use webfuse.Message.Bytes.{Bytes}
use webfuse.Message.Data.{Timespec, Stat, Statvfs}
use webfuse.Fs.{FilesystemI, invalid_handle}
use Calls.{Posix}

-- `0 <= i` of the source
abbrev pub is_nonneg : ℤ → Bool
is_nonneg (pos n) = true
is_nonneg (negsuc n) = false

-- `static_cast<int>(handle)`
abbrev pub descriptor : ℕ → ℤ
descriptor handle = to_i32 (handle % 2 ^ 32)

-- A `ssize_t` that is stored in an `int`.
abbrev pub as_int : ℤ → ℤ
as_int result = to_i32 (to_u32 result)

module _ {W : Type 0} (sys : Posix W) (base_path token : Bytes) where
  -- `get_full_path(path).c_str()`
  unfoldable pub full_path : Bytes → Bytes
  full_path path = c_string (base_path ++ path)

  -- `(result == 0) ? 0 : -errno`
  unfoldable pub status_of : ℤ × W → ℤ × W
  status_of (result, w) = (if is_zero result then pos 0 else neg (sys.errno w), w)

  -- `(result >= 0) ? result : -errno`
  unfoldable pub count_of : ℤ × W → ℤ × W
  count_of (result, w) = (if is_nonneg result then result else neg (sys.errno w), w)

  unfoldable pub access : Bytes → ℕ → W → ℤ × W
  access path mode w = status_of (sys.access (full_path path) mode w)

  unfoldable pub getattr : Bytes → Stat → W → ℤ × Stat × W
  getattr path attr w =
      let (result, attr', w') = sys.lstat (full_path path) attr w in
      let (status, w'') = status_of (result, w') in (status, attr', w'')

  -- `buffer[result] = '\0'; out = buffer;`, if the target fits.
  unfoldable pub link_target : ℤ → Bytes → Bytes → Bytes
  link_target result buffer out =
      if is_nonneg result
      then (if ltb (magnitude result) sys.path_max
          then c_string (take (magnitude result) buffer)
          else out)
      else out

  unfoldable pub readlink : Bytes → Bytes → W → ℤ × Bytes × W
  readlink path out w =
      let (size, buffer, w') = sys.readlink (full_path path) sys.path_max w in
      let result = as_int size in
      (if is_nonneg result then pos 0 else neg (sys.errno w'), link_target result buffer out, w')

  -- `full_from`: an absolute target is moved into the directory. `from.at(0)` throws on an empty text.
  unfoldable pub stored_target : ℕ → Bytes → Bytes
  stored_target c from = if c == b'/' then full_path (c ∷ from) else c_string (c ∷ from)

  unfoldable pub symlink : Bytes → Bytes → W → Option ℤ × W
  symlink [] to w = (none, w)
  symlink (c ∷ from) to w =
      let (status, w') = status_of (sys.symlink (stored_target c from) (full_path to) w) in
      (some status, w')

  unfoldable pub link : Bytes → Bytes → W → ℤ × W
  link old_path new_path w = status_of (sys.link (full_path old_path) (full_path new_path) w)

  unfoldable pub rename : Bytes → Bytes → ℕ → W → ℤ × W
  rename old_path new_path flags w =
      status_of (sys.renameat2 (full_path old_path) (full_path new_path) flags w)

  unfoldable pub chmod : Bytes → ℕ → W → ℤ × W
  chmod path mode w = status_of (sys.chmod (full_path path) mode w)

  unfoldable pub chown : Bytes → ℕ → ℕ → W → ℤ × W
  chown path uid gid w = status_of (sys.chown (full_path path) uid gid w)

  unfoldable pub truncate : Bytes → ℕ → ℕ → W → ℤ × W
  truncate path size handle w = status_of (
      if handle == invalid_handle
      then sys.truncate (full_path path) size w
      else sys.ftruncate (descriptor handle) size w)

  -- A file that is not open is not synchronised.
  unfoldable pub fsync : Bytes → Bool → ℕ → W → ℤ × W
  fsync path is_datasync handle w = status_of (
      if not (handle == invalid_handle)
      then (if not is_datasync
          then sys.fsync (descriptor handle) w
          else sys.fdatasync (descriptor handle) w)
      else (pos 0, w))

  unfoldable pub utimens : Bytes → Timespec → Timespec → ℕ → W → ℤ × W
  utimens path atime mtime handle w = status_of (
      if handle == invalid_handle
      then sys.utimensat (full_path path) atime mtime w
      else sys.futimens (descriptor handle) atime mtime w)

  -- A descriptor becomes the handle.
  unfoldable pub opened : ℕ → ℤ × W → ℤ × ℕ × W
  opened handle (fd, w) = (
    if is_nonneg fd then pos 0 else neg (sys.errno w),
    if is_nonneg fd then magnitude fd else handle,
    w,
  )

  unfoldable pub open_file : Bytes → ℕ → ℕ → W → ℤ × ℕ × W
  open_file path flags handle w = opened handle (sys.open_path (full_path path) flags w)

  unfoldable pub mknod : Bytes → ℕ → ℕ → W → ℤ × W
  mknod path mode rdev w = status_of (sys.mknod (full_path path) mode rdev w)

  unfoldable pub create : Bytes → ℕ → ℕ → W → ℤ × ℕ × W
  create path mode handle w = opened handle (sys.creat (full_path path) mode w)

  unfoldable pub release : Bytes → ℕ → W → ℤ × W
  release path handle w =
      status_of
        (if not (handle == invalid_handle) then sys.close (descriptor handle) w else (pos 0, w))

  unfoldable pub unlink : Bytes → W → ℤ × W
  unlink path w = status_of (sys.unlink (full_path path) w)

  unfoldable pub read_from : ℤ → Bytes → ℕ → W → ℤ × Bytes × W
  read_from fd buffer offset w =
      let (size, buffer', w') = sys.pread fd buffer offset w in (as_int size, buffer', w')

  -- `result` is -1 if the file cannot be opened.
  unfoldable pub read_opened : ℤ × W → Bytes → ℕ → ℤ × Bytes × W
  read_opened (fd, w) buffer offset =
      if is_nonneg fd
      then (let (result, buffer', w') = read_from fd buffer offset w in
          (result, buffer', (sys.close fd w').1))
      else (neg 1, buffer, w)

  -- `(result >= 0) ? result : -errno` of `read`, beside the buffer
  unfoldable pub read_count : ℤ × Bytes × W → ℤ × Bytes × W
  read_count (result, buffer, w) = let (count, w') = count_of (result, w) in (count, buffer, w')

  -- A handle that is not the invalid one is opened by its path.
  unfoldable pub read : Bytes → ℕ → ℕ → Bytes → W → ℤ × Bytes × W
  read path offset handle buffer w = read_count (
      if not (handle == invalid_handle)
      then read_opened (sys.open_path (full_path path) sys.o_rdonly w) buffer offset
      else read_from (descriptor handle) buffer offset w)

  unfoldable pub write_to : ℤ → Bytes → ℕ → W → ℤ × W
  write_to fd buffer offset w = let (size, w') = sys.pwrite fd buffer offset w in (as_int size, w')

  unfoldable pub write_opened : ℤ × W → Bytes → ℕ → ℤ × W
  write_opened (fd, w) buffer offset =
      if is_nonneg fd
      then (let (result, w') = write_to fd buffer offset w in (result, (sys.close fd w').1))
      else (neg 1, w)

  unfoldable pub write : Bytes → Bytes → ℕ → ℕ → W → ℤ × W
  write path buffer offset handle w = count_of (
      if handle == invalid_handle
      then write_opened (sys.open_path (full_path path) sys.o_wronly w) buffer offset
      else write_to (descriptor handle) buffer offset w)

  unfoldable pub mkdir : Bytes → ℕ → W → ℤ × W
  mkdir path mode w = status_of (sys.mkdir (full_path path) mode w)

  unfoldable pub rmdir : Bytes → W → ℤ × W
  rmdir path w = status_of (sys.rmdir (full_path path) w)

  unfoldable pub statfs : Bytes → Statvfs → W → ℤ × Statvfs × W
  statfs path statistics w =
      let (result, statistics', w') = sys.statvfs (full_path path) statistics w in
      let (status, w'') = status_of (result, w') in (status, statistics', w'')

  unfoldable pub get_credentials : W → Option Bytes × W
  get_credentials w = elim (length token) [
    | zero ↦
        let (password, w') = sys.getpass (codes "credentials: ") w in (some (c_string password), w')
    | suc n ↦ (some token, w)
  ]

  -- `while (entry != nullptr)`: the entries, until the system has no more of them. The fuel bounds
  -- their number.
  unfoldable pub read_entries : ℕ → ℕ → List Bytes → W → List Bytes × W
  read_entries zero directory entries w = (entries, w)
  read_entries (suc fuel) directory entries w =
      let got = sys.readdir directory w in
      elim (got.0) [
        | none ↦ (entries, got.1)
        | some name ↦ read_entries fuel directory (entries ++ name ∷ []) got.1
      ]

  unfoldable pub readdir : Bytes → List Bytes → W → ℤ × List Bytes × W
  readdir path entries w =
      let opened_directory = sys.opendir (full_path path) w in
      elim (opened_directory.0) [
        | none ↦ (neg (sys.errno opened_directory.1), entries, opened_directory.1)
        | some directory ↦
            let fuel = suc (sys.readdir_fuel directory opened_directory.1) in
            let (all, w') = read_entries fuel directory entries opened_directory.1 in
            (pos 0, all, sys.closedir directory w')
      ]

  unfoldable pub local : FilesystemI W
  local = record {
    access = access;
    getattr = getattr;
    readlink = readlink;
    symlink = symlink;
    link = link;
    rename = rename;
    chmod = chmod;
    chown = chown;
    truncate = truncate;
    fsync = fsync;
    utimens = utimens;
    open_file = open_file;
    mknod = mknod;
    create = create;
    release = release;
    unlink = unlink;
    read = read;
    write = write;
    mkdir = mkdir;
    readdir = readdir;
    rmdir = rmdir;
    statfs = statfs;
    get_credentials = get_credentials;
  }
