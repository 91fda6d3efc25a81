-- ===== src/Provider/Serve.antt =====
-- What the handlers of src/webfuse/provider.cpp have in common: their local buffers, the order of
-- reading, calling and answering, and what is written after a result.
use webfuse.Base.{Option, none, some, length, take, leb, if◌then◌else◌}
use webfuse.Base.Int.{ℤ, is_zero, is_positive, magnitude}
use webfuse.Message.Bytes.{Bytes}
use webfuse.Message.Data.{Timespec, Stat, Statvfs}
use webfuse.Message.Writer
use webfuse.Message.Writer.{Writer}
use webfuse.Message.Reader
use webfuse.Message.Reader.{Reader, ReadM, ◌>>=◌, return}

abbrev pub blank_time : Timespec
blank_time = record { tv_sec = 0; tv_nsec = 0 }

-- `struct stat buffer;` and `struct timespec times[2];` are not initialised: their first contents,
-- which zeros stand for, are overwritten.
abbrev pub blank_stat : Stat
blank_stat = record {
  st_ino = 0;
  st_nlink = 0;
  st_mode = 0;
  st_uid = 0;
  st_gid = 0;
  st_rdev = 0;
  st_size = 0;
  st_blocks = 0;
  st_atim = blank_time;
  st_mtim = blank_time;
  st_ctim = blank_time;
}

-- `memset(&statistics, 0, sizeof(statistics))`
abbrev pub blank_statistics : Statvfs
blank_statistics = record {
  f_bsize = 0;
  f_frsize = 0;
  f_blocks = 0;
  f_bfree = 0;
  f_bavail = 0;
  f_files = 0;
  f_ffree = 0;
  f_namemax = 0;
}

-- `reader.read_time(times[i])`
unfoldable pub read_new_time : ReadM Timespec
read_new_time r = elim (Reader.read_time r blank_time).0 [
  | none ↦ none
  | some r' ↦ some ((Reader.read_time r blank_time).1, r')
]

module _ {S : Type 0} where
  -- A handler reads all its arguments before it calls the file system, then writes the answer.
  abbrev pub serve :
      {A : Type 0} → ReadM (S → A) → (A → Option Writer × S) → Reader → S → Option Writer × S
  serve arguments answer reader s = elim (arguments reader) [
    | none ↦ (none, s)
    | some (call, _) ↦ answer (call s)
  ]

  -- `writer.write_i32(result)`
  abbrev pub reply : Writer → ℤ × S → Option Writer × S
  reply writer (result, s) = (some (Writer.write_i32 result writer), s)

  -- The same after a call that may throw.
  abbrev pub reply_unless_thrown : Writer → Option ℤ × S → Option Writer × S
  reply_unless_thrown writer (none, s) = (none, s)
  reply_unless_thrown writer (some result, s) = reply writer (result, s)

  -- `writer.write_i32(result)`, and what follows a good result.
  abbrev pub reply_with :
      {B : Type 0} → (B → Writer → Writer) → Writer → ℤ × B × S → Option Writer × S
  reply_with write writer (result, b, s) =
      let answer = Writer.write_i32 result writer in
      (some (if is_zero result then write b answer else answer), s)

  -- Of `fs_read`: to write more than the vector holds is undefined.
  abbrev pub reply_data : Writer → ℤ × Bytes × S → Option Writer × S
  reply_data writer (result, buffer, s) =
      let answer = Writer.write_i32 result writer in
      if is_positive result
      then (if leb (magnitude result) (length buffer)
          then (some (Writer.write_data (take (magnitude result) buffer) answer), s)
          else (none, s))
      else (some answer, s)

abbrev pub Handler : Type 0 → Type 0
Handler S = Reader → Writer → S → Option Writer × S
