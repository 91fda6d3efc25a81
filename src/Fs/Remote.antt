-- ===== src/Fs/Remote.antt =====
-- `filesystem`: src/webfuse/filesystem.hpp and filesystem.cpp. Every operation is a request to the
-- provider; an exception on the way makes the operation that of the empty file system.
use webfuse.Base.{
  ℕ, ◌%◌, ◌^◌, List, ◌++◌, Bool, Option, none, some, length, drop, leb, if◌then◌else◌,
}
use webfuse.Base.Int.{ℤ, is_zero, is_positive}
use webfuse.Flags.Platform.{Platform}
use webfuse.Message.Bytes.{Bytes}
use webfuse.Message.Data.{Timespec, Stat, Statvfs}
use webfuse.Message.Types.{RequestType}
use webfuse.Message.Writer
use webfuse.Message.Writer.{Writer}
use webfuse.Message.Reader
use webfuse.Message.Reader.{Reader, Fill, field}
use webfuse.Fs.{FilesystemI}
use webfuse.Fs.Empty

-- `ws_server::perform`: sends a request and waits for the reader of its response. `none` is an
-- exception: a timeout, a missing authentication, a lost connection.
abbrev pub Proxy : Type 0 → Type 0
Proxy S = Writer → S → Option Reader × S

-- What `read` does with its response: `memcpy` into the buffer, if the data fit.
unfoldable pub read_into : Fill Bytes
read_into r buffer = elim (Reader.read_bytes r) [
  | none ↦ (none, buffer)
  | some (received, r') ↦
      if leb (length received) (length buffer)
      then (some r', received ++ drop (length received) buffer)
      else (none, buffer)
]

module _ (p : Platform) {S : Type 0} (proxy : Proxy S) where
  -- `reader.read_result()` of the response, in the `try` block.
  unfoldable pub settle : ℤ → Option Reader × S → ℤ × S
  settle fallback (none, s) = (fallback, s)
  settle fallback (some reader, s) = elim (Reader.read_result p reader) [
    | none ↦ (fallback, s)
    | some (result, _) ↦ (result, s)
  ]

  unfoldable pub perform : Writer → ℤ → S → ℤ × S
  perform req fallback s = settle fallback (proxy req s)

  module _ {B : Type 0} (fallback : B → ℤ × B) where
    abbrev pub give : ℤ × B → S → ℤ × B × S
    give (result, b) s = (result, b, s)

    unfoldable pub filled : ℤ → Option Reader × B → S → ℤ × B × S
    filled result (none, b) s = give (fallback b) s
    filled result (some _, b) s = (result, b, s)

    -- The same, where a result that passes `test` is followed by what fills the buffer.
    unfoldable pub settle_fill : (ℤ → Bool) → Fill B → B → Option Reader × S → ℤ × B × S
    settle_fill test fill b (none, s) = give (fallback b) s
    settle_fill test fill b (some reader, s) = elim (Reader.read_result p reader) [
      | none ↦ give (fallback b) s
      | some (result, r) ↦ if test result then filled result (fill r b) s else (result, b, s)
    ]

    unfoldable pub perform_fill : (ℤ → Bool) → Fill B → Writer → B → S → ℤ × B × S
    perform_fill test fill req b s = settle_fill test fill b (proxy req s)

  request : RequestType → Writer
  request = Writer.new_request p

  unfoldable pub access : Bytes → ℕ → S → ℤ × S
  unfolding request
  access path mode =
      perform (Writer.write_access_mode p mode (Writer.write_str path (request RequestType.access)))
        (Empty.access p path mode)

  unfoldable pub getattr : Bytes → Stat → S → ℤ × Stat × S
  unfolding request
  getattr path =
      perform_fill (Empty.getattr p path) is_zero (Reader.read_attr p)
        (Writer.write_str path (request RequestType.getattr))

  unfoldable pub readlink : Bytes → Bytes → S → ℤ × Bytes × S
  unfolding request
  readlink path =
      perform_fill (Empty.readlink p path) is_zero (field Reader.read_str (λ v _. v))
        (Writer.write_str path (request RequestType.readlink))

  unfoldable pub symlink : Bytes → Bytes → S → ℤ × S
  unfolding request
  symlink target linkpath =
      perform (Writer.write_str linkpath (Writer.write_str target (request RequestType.symlink)))
        (Empty.symlink p target linkpath)

  unfoldable pub link : Bytes → Bytes → S → ℤ × S
  unfolding request
  link old_path new_path =
      perform (Writer.write_str new_path (Writer.write_str old_path (request RequestType.link)))
        (Empty.link p old_path new_path)

  unfoldable pub rename : Bytes → Bytes → ℕ → S → ℤ × S
  unfolding request
  rename old_path new_path flags =
      perform
        (Writer.write_rename_flags p flags
          (Writer.write_str new_path (Writer.write_str old_path (request RequestType.rename))))
        (Empty.rename p old_path new_path flags)

  unfoldable pub chmod : Bytes → ℕ → S → ℤ × S
  unfolding request
  chmod path mode =
      perform (Writer.write_mode p mode (Writer.write_str path (request RequestType.chmod)))
        (Empty.chmod p path mode)

  unfoldable pub chown : Bytes → ℕ → ℕ → S → ℤ × S
  unfolding request
  chown path uid gid =
      perform
        (Writer.write_gid gid
          (Writer.write_uid uid (Writer.write_str path (request RequestType.chown))))
        (Empty.chown p path uid gid)

  unfoldable pub truncate : Bytes → ℕ → ℕ → S → ℤ × S
  unfolding request
  truncate path size handle =
      perform
        (Writer.write_u64 handle
          (Writer.write_u64 size (Writer.write_str path (request RequestType.truncate))))
        (Empty.truncate p path size handle)

  unfoldable pub fsync : Bytes → Bool → ℕ → S → ℤ × S
  unfolding request
  fsync path is_datasync handle =
      perform
        (Writer.write_u64 handle
          (Writer.write_bool is_datasync (Writer.write_str path (request RequestType.fsync))))
        (Empty.fsync p path is_datasync handle)

  unfoldable pub utimens : Bytes → Timespec → Timespec → ℕ → S → ℤ × S
  unfolding request
  utimens path atime mtime handle =
      perform
        (Writer.write_u64 handle (
          Writer.write_time mtime
            (Writer.write_time atime (Writer.write_str path (request RequestType.utimens)))))
        (Empty.utimens p path atime mtime handle)

  unfoldable pub open_file : Bytes → ℕ → ℕ → S → ℤ × ℕ × S
  unfolding request
  open_file path flags =
      perform_fill (Empty.open_file p path flags) is_zero (field Reader.read_u64 (λ v _. v))
        (Writer.write_openflags p flags (Writer.write_str path (request RequestType.open_file)))

  unfoldable pub mknod : Bytes → ℕ → ℕ → S → ℤ × S
  unfolding request
  mknod path mode rdev =
      perform
        (Writer.write_u64 rdev
          (Writer.write_mode p mode (Writer.write_str path (request RequestType.mknod))))
        (Empty.mknod p path mode rdev)

  unfoldable pub create : Bytes → ℕ → ℕ → S → ℤ × ℕ × S
  unfolding request
  create path mode =
      perform_fill (Empty.create p path mode) is_zero (field Reader.read_u64 (λ v _. v))
        (Writer.write_mode p mode (Writer.write_str path (request RequestType.create)))

  unfoldable pub release : Bytes → ℕ → S → ℤ × S
  unfolding request
  release path handle =
      perform (Writer.write_u64 handle (Writer.write_str path (request RequestType.release)))
        (Empty.release p path handle)

  unfoldable pub unlink : Bytes → S → ℤ × S
  unfolding request
  unlink path = perform (Writer.write_str path (request RequestType.unlink)) (Empty.unlink p path)

  -- `buffer_size` is the length of the buffer.
  unfoldable pub read : Bytes → ℕ → ℕ → Bytes → S → ℤ × Bytes × S
  unfolding request
  read path offset handle buffer =
      perform_fill (Empty.read p path offset handle) is_positive read_into
        (Writer.write_u64 handle (
          Writer.write_u64 offset (
            Writer.write_u32 (length buffer % 2 ^ 32)
              (Writer.write_str path (request RequestType.read)))))
        buffer

  unfoldable pub write : Bytes → Bytes → ℕ → ℕ → S → ℤ × S
  unfolding request
  write path buffer offset handle =
      perform
        (Writer.write_u64 handle (
          Writer.write_u64 offset
            (Writer.write_data buffer (Writer.write_str path (request RequestType.write)))))
        (Empty.write p path buffer offset handle)

  unfoldable pub mkdir : Bytes → ℕ → S → ℤ × S
  unfolding request
  mkdir path mode =
      perform (Writer.write_mode p mode (Writer.write_str path (request RequestType.mkdir)))
        (Empty.mkdir p path mode)

  unfoldable pub readdir : Bytes → List Bytes → S → ℤ × List Bytes × S
  unfolding request
  readdir path =
      perform_fill (Empty.readdir p path) is_zero Reader.read_strings
        (Writer.write_str path (request RequestType.readdir))

  unfoldable pub rmdir : Bytes → S → ℤ × S
  unfolding request
  rmdir path = perform (Writer.write_str path (request RequestType.rmdir)) (Empty.rmdir p path)

  unfoldable pub statfs : Bytes → Statvfs → S → ℤ × Statvfs × S
  unfolding request
  statfs path =
      perform_fill (Empty.statfs p path) is_zero Reader.read_statistics
        (Writer.write_str path (request RequestType.statfs))

-- `get_credentials()` throws: the credentials are asked for elsewhere.
unfoldable pub get_credentials : Option Bytes
get_credentials = none

-- `filesystem` as a `filesystem_i`, over the state of the proxy.
unfoldable pub filesystem : Platform → {S : Type 0} → Proxy S → FilesystemI S
filesystem p proxy = record {
  access = access p proxy;
  getattr = getattr p proxy;
  readlink = readlink p proxy;
  symlink = λ target linkpath s.
      let (result, s') = symlink p proxy target linkpath s in (some result, s');
  link = link p proxy;
  rename = rename p proxy;
  chmod = chmod p proxy;
  chown = chown p proxy;
  truncate = truncate p proxy;
  fsync = fsync p proxy;
  utimens = utimens p proxy;
  open_file = open_file p proxy;
  mknod = mknod p proxy;
  create = create p proxy;
  release = release p proxy;
  unlink = unlink p proxy;
  read = read p proxy;
  write = write p proxy;
  mkdir = mkdir p proxy;
  readdir = readdir p proxy;
  rmdir = rmdir p proxy;
  statfs = statfs p proxy;
  get_credentials = λ s. (get_credentials, s);
}
