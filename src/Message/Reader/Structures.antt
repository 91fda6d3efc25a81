-- ===== src/Message/Reader/Structures.antt =====
-- A reader in front of an encoded structure. Members of 64 bits arrive modulo 2 ^ 32.
use webfuse.Base.{
  ℕ, ◌%◌, ◌^◌, ◌<◌, ◌≡◌, ◌∙◌, List, [], ◌∷◌, ◌++◌, some, append_assoc, append-nil, arith, length,
  All,
}
use native.Mathlib.Nat.{mod-mod}
use webfuse.Base.Int.{to_i32, to_u32}
use webfuse.Flags.Platform.{Platform}
use webfuse.Flags.AccessMode
use webfuse.Flags.FileMode
use webfuse.Flags.OpenFlags
use webfuse.Flags.Status.{to_fusestatus}
use webfuse.Message.Bytes.{Bytes, be32, counted}
use webfuse.Message.Data.{Timespec, Stat, Statvfs}
use webfuse.Message.Reader
use webfuse.Message.Reader.{Reader, ◌>>=◌, return, field, resume, ◌⨾◌}
use webfuse.Message.Reader.At.{at, read_u32-at, read_str-at, reader_laws}
use webfuse.Message.Writer.Laws.{time_bytes, statistics_bytes, attr_bytes, strings_bytes}
use webfuse.Message.Writer.Shape.{counted_items}

-- What is left of a time, of statistics and of attributes.
unfoldable pub short_time : Timespec → Timespec
short_time t = record { tv_sec = t.tv_sec % 2 ^ 32; tv_nsec = t.tv_nsec % 2 ^ 32 }

ruleset structure_laws = (append_assoc, reader_laws, field, resume, mod-mod)

pub read_time-at :
    (front rest : Bytes) (t old : Timespec)
    → Reader.read_time (at front (time_bytes t ++ rest)) old
      ≡ (some (at (front ++ time_bytes t) rest), short_time t)
unfolding Reader.read_time time_bytes short_time
read_time-at front rest t old = simp structure_laws

unfoldable pub short_statistics : Statvfs → Statvfs
short_statistics s = record {
  f_bsize = s.f_bsize % 2 ^ 32;
  f_frsize = s.f_frsize % 2 ^ 32;
  f_blocks = s.f_blocks % 2 ^ 32;
  f_bfree = s.f_bfree % 2 ^ 32;
  f_bavail = s.f_bavail % 2 ^ 32;
  f_files = s.f_files % 2 ^ 32;
  f_ffree = s.f_ffree % 2 ^ 32;
  f_namemax = s.f_namemax % 2 ^ 32;
}

pub read_statistics-at :
    (front rest : Bytes) (s old : Statvfs)
    → Reader.read_statistics (at front (statistics_bytes s ++ rest)) old
      ≡ (some (at (front ++ statistics_bytes s) rest), short_statistics s)
unfolding Reader.read_statistics statistics_bytes short_statistics
read_statistics-at front rest s old = simp structure_laws

-- The mode is encoded on the system `q` and decoded on `p`.
unfoldable pub short_attr : Platform → Platform → Stat → Stat
short_attr p q a = record {
  st_ino = a.st_ino % 2 ^ 32;
  st_nlink = a.st_nlink % 2 ^ 32;
  st_mode = FileMode.to_mode p (FileMode.from_mode q (FileMode.from_mode q a.st_mode) % 2 ^ 32);
  st_uid = a.st_uid % 2 ^ 32;
  st_gid = a.st_gid % 2 ^ 32;
  st_rdev = a.st_rdev % 2 ^ 32;
  st_size = a.st_size % 2 ^ 32;
  st_blocks = a.st_blocks % 2 ^ 32;
  st_atim = short_time a.st_atim;
  st_mtim = short_time a.st_mtim;
  st_ctim = short_time a.st_ctim;
}

module _ (p : Platform) where
  pub read_mode-at :
      (front rest : Bytes) (v : ℕ)
      → Reader.read_mode p (at front (be32 v ++ rest))
        ≡ some (FileMode.to_mode p (v % 2 ^ 32), at (front ++ be32 v) rest)
  unfolding Reader.read_mode
  read_mode-at front rest v = simp reader_laws

  pub read_result-at :
      (front rest : Bytes) (v : ℕ)
      → Reader.read_result p (at front (be32 v ++ rest))
        ≡ some (to_fusestatus p (to_i32 (v % 2 ^ 32)), at (front ++ be32 v) rest)
  unfolding Reader.read_result
  read_result-at front rest v = simp reader_laws

  pub read_access_mode-at :
      (front rest : Bytes) (v : ℕ)
      → Reader.read_access_mode p (at front (v ∷ rest))
        ≡ some (AccessMode.to_int p (v % 2 ^ 8), at (front ++ v ∷ []) rest)
  unfolding Reader.read_access_mode
  read_access_mode-at front rest v = simp reader_laws

  pub read_openflags-at :
      (front rest : Bytes) (v : ℕ)
      → Reader.read_openflags p (at front (be32 v ++ rest))
        ≡ some (OpenFlags.to_int p (to_u32 (to_i32 (v % 2 ^ 32))), at (front ++ be32 v) rest)
  unfolding Reader.read_openflags
  read_openflags-at front rest v = simp reader_laws

-- What `write_attr` adds to a message, `read_attr` reads up to its last byte, whatever comes
-- before and after it; 64-bit fields arrive modulo 2 ^ 32, and the mode is translated by both
-- systems.
pub read_attr-at :
    (p q : Platform) (front rest : Bytes) (a old : Stat)
    → Reader.read_attr p (at front (attr_bytes q a ++ rest)) old
      ≡ (some (at (front ++ attr_bytes q a) rest), short_attr p q a)
unfolding Reader.read_attr attr_bytes short_attr short_time time_bytes
read_attr-at p q front rest a old = simp (structure_laws, read_mode-at)

read_entries-at :
    (front rest : Bytes) (items old : List Bytes)
    → All (λ s. length s < 2 ^ 32) items
    → Reader.read_entries (length items) (at front (counted_items items ++ rest)) old
      ≡ (some (at (front ++ counted_items items) rest), old ++ items)
unfolding Reader.read_entries counted_items
read_entries-at front rest [] old h = simp append-nil
read_entries-at front rest (s ∷ items) old h =
    rw
      (
        append_assoc (counted s) (counted_items items) rest,
        read_str-at front s _ h.0,
        Reader.read_entries,
      )
      (read_entries-at (front ++ counted s) rest items (old ++ s ∷ []) h.1 ∙ simp append_assoc)

-- The bytes of a list of strings are read up to their last byte, whatever comes before and after
-- them, and the strings are appended in order to those the caller has. The list and every string
-- are shorter than 2 ^ 32.
pub read_strings-at :
    (front rest : Bytes) (items old : List Bytes)
    → length items < 2 ^ 32
    → All (λ s. length s < 2 ^ 32) items
    → Reader.read_strings (at front (strings_bytes items ++ rest)) old
      ≡ (some (at (front ++ strings_bytes items) rest), old ++ items)
unfolding Reader.read_strings strings_bytes
read_strings-at front rest items old h hs =
    let e : length items % 2 ^ 32 ≡ length items = omega arith in
    rw
      (
        append_assoc (be32 (length items % 2 ^ 32)) (counted_items items) rest,
        read_u32-at front (counted_items items ++ rest) (length items % 2 ^ 32),
        mod-mod,
        e,
        Reader.read_strings,
      )
      (read_entries-at (front ++ be32 (length items)) rest items old hs ∙ simp append_assoc)
