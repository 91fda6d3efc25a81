-- ===== src/Flags/OpenFlags.antt =====
-- The flags of `open`: src/webfuse/filesystem/openflags.hpp and openflags.cpp. An `int` and an
-- `int32_t` are their bit patterns.
pub mod RoundTrip
use webfuse.Base.{ℕ, List, [], ◌∷◌, ◌==◌, if◌then◌else◌, bit_and, bit_or}
use webfuse.Flags.Platform.{
  Platform, OpenFlag, rdonly, wronly, rdwr, append, async, cloexec, creat, direct, directory, dsync,
  excl, largefile, noatime, noctty, nofollow, nonblock, ndelay, path, sync, tmpfile, trunc,
}

-- `openflags::...`, the encoding that messages use.
unfoldable pub code : OpenFlag → ℕ
code rdonly = 0o0
code wronly = 0o1
code rdwr = 0o2
code append = 0o2000
code async = 0o20000
code cloexec = 0o2000000
code creat = 0o100
code direct = 0o40000
code directory = 0o200000
code dsync = 0o10000
code excl = 0o200
code largefile = 0o100000
code noatime = 0o1000000
code noctty = 0o400
code nofollow = 0o400000
code nonblock = 0o4000
code ndelay = 0o4000
code path = 0o10000000
code sync = 0o4010000
code tmpfile = 0o20200000
code trunc = 0o1000

-- The flags in the order in which both functions test them.
abbrev pub open_flags : List OpenFlag
open_flags =
    rdonly ∷ wronly ∷ rdwr ∷ append ∷ async ∷ cloexec ∷ creat ∷ direct ∷ directory ∷ dsync ∷ excl
    ∷ largefile ∷ noatime ∷ noctty ∷ nofollow ∷ nonblock ∷ ndelay ∷ path ∷ sync ∷ tmpfile ∷ trunc
    ∷ []

-- `if (from(f) == (value & from(f))) { result |= to(f); }` for one flag after the other.
unfoldable pub merge_flags : (OpenFlag → ℕ) → (OpenFlag → ℕ) → ℕ → ℕ → List OpenFlag → ℕ
merge_flags from to value result [] = result
merge_flags from to value result (f ∷ fs) =
    merge_flags from to value
      (if from f == bit_and value (from f) then bit_or result (to f) else result) fs

module _ (p : Platform) where
  unfoldable pub from_int : ℕ → ℕ
  from_int value = merge_flags p.open_flag code value 0 open_flags

  unfoldable pub to_int : ℕ → ℕ
  to_int value_ = merge_flags code p.open_flag value_ 0 open_flags
