-- ===== src/Message/Reader.antt =====
-- `messagereader`: src/webfuse/ws/messagereader.hpp and messagereader.cpp. A read past the end
-- throws; the exception is `none`, since every caller gives the reader up then. A `size_t` has 64
-- bits, so that `pos + size` does not wrap.
pub mod At
pub mod Structures
use webfuse.Base.{
  ℕ, zero, suc, ◌+◌, ◌%◌, ◌^◌, List, [], ◌∷◌, ◌++◌, Bool, Option, none, some, length, get_or, take,
  drop, ltb, leb, ◌==◌, if◌then◌else◌,
}
use webfuse.Base.Bits.{join4, join8}
use webfuse.Base.Int.{ℤ, to_i32, to_u32}
use webfuse.Flags.Platform.{Platform}
use webfuse.Flags.AccessMode
use webfuse.Flags.FileMode
use webfuse.Flags.OpenFlags
use webfuse.Flags.Status.{to_fusestatus}
use webfuse.Message.Bytes.{Bytes}
use webfuse.Message.Data.{Timespec, Stat, Statvfs}

pub record Reader : Type 0 where
  pub bytes : Bytes
  pub pos : ℕ

-- `messagereader(std::string & value)`
unfoldable pub new_reader : Bytes → Reader
new_reader value = record { bytes = value; pos = 0 }

abbrev pub ReadM : Type 0 → Type 0
ReadM A = Reader → Option (A × Reader)

infixl 5 ◌>>=◌
abbrev pub ◌>>=◌ : {A B : Type 0} → ReadM A → (A → ReadM B) → ReadM B
◌>>=◌ m f r = elim (m r) [ none ↦ none | some (a, r') ↦ f a r' ]

abbrev pub return : {A : Type 0} → A → ReadM A
return a r = some (a, r)

-- `data[pos + i] & 0xff`
byte_at : Reader → ℕ → ℕ
byte_at r i = get_or r.bytes (r.pos + i) 0 % 2 ^ 8

unfoldable pub read_u8 : ReadM ℕ
unfolding byte_at
read_u8 r =
    if ltb r.pos (length r.bytes) then some (byte_at r 0, record r { pos = r.pos + 1 }) else none

unfoldable pub read_u32 : ReadM ℕ
unfolding byte_at
read_u32 r =
    if ltb (r.pos + 3) (length r.bytes)
    then some (
      join4 (byte_at r 0) (byte_at r 1) (byte_at r 2) (byte_at r 3),
      record r { pos = r.pos + 4 },
    )
    else none

-- The eight bytes are joined as 64 bits, and stored in a `uint32_t`.
unfoldable pub read_u64 : ReadM ℕ
unfolding byte_at
read_u64 r =
    if ltb (r.pos + 7) (length r.bytes)
    then some (
      join8 (byte_at r 0) (byte_at r 1) (byte_at r 2) (byte_at r 3) (byte_at r 4) (byte_at r 5)
            (byte_at r 6) (byte_at r 7)
          % 2 ^ 32,
      record r { pos = r.pos + 8 },
    )
    else none

unfoldable pub read_i32 : ReadM ℤ
read_i32 = do value ← read_u32; return (to_i32 value)

unfoldable pub read_bool : ReadM Bool
read_bool = do value ← read_u8; return (1 == value)

take_bytes : ℕ → ReadM Bytes
take_bytes size r =
    if leb (r.pos + size) (length r.bytes)
    then some (take size (drop r.pos r.bytes), record r { pos = r.pos + size })
    else none

unfoldable pub read_bytes : ReadM Bytes
unfolding take_bytes
read_bytes = do size ← read_u32; take_bytes size

unfoldable pub read_str : ReadM Bytes
read_str = read_bytes

-- An operation that fills a buffer of its caller. What it has written stays there if it throws.
abbrev pub Fill : Type 0 → Type 0
Fill B = Reader → B → Option Reader × B

module _ {B : Type 0} where
  abbrev pub field : {A : Type 0} → ReadM A → (A → B → B) → Fill B
  field m store r b = elim (m r) [ none ↦ (none, b) | some (a, r') ↦ (some r', store a b) ]

  abbrev pub resume : Fill B → Option Reader × B → Option Reader × B
  resume f (none, b) = (none, b)
  resume f (some r, b) = f r b

  infixr 6 ◌⨾◌
  abbrev pub ◌⨾◌ : Fill B → Fill B → Fill B
  ◌⨾◌ f g r b = resume g (f r b)

-- The loop, with the rounds that are left.
unfoldable pub read_entries : ℕ → Fill (List Bytes)
read_entries zero r entries = (some r, entries)
read_entries (suc left) r entries = elim (read_str r) [
  | none ↦ (none, entries)
  | some (entry, r') ↦ read_entries left r' (entries ++ entry ∷ [])
]

unfoldable pub read_strings : Fill (List Bytes)
read_strings r entries = elim (read_u32 r) [
  | none ↦ (none, entries)
  | some (count, r') ↦ read_entries count r' entries
]

unfoldable pub read_time : Fill Timespec
read_time =
    field read_u64 (λ v t. record t { tv_sec = v })
    ⨾ field read_u32 (λ v t. record t { tv_nsec = v })

unfoldable pub read_statistics : Fill Statvfs
read_statistics =
    field read_u64 (λ v s. record s { f_bsize = v })
    ⨾ field read_u64 (λ v s. record s { f_frsize = v })
    ⨾ field read_u64 (λ v s. record s { f_blocks = v })
    ⨾ field read_u64 (λ v s. record s { f_bfree = v })
    ⨾ field read_u64 (λ v s. record s { f_bavail = v })
    ⨾ field read_u64 (λ v s. record s { f_files = v })
    ⨾ field read_u64 (λ v s. record s { f_ffree = v })
    ⨾ field read_u64 (λ v s. record s { f_namemax = v })

module _ (p : Platform) where
  unfoldable pub read_result : ReadM ℤ
  read_result = do value ← read_i32; return (to_fusestatus p value)

  unfoldable pub read_access_mode : ReadM ℕ
  read_access_mode = do value ← read_u8; return (AccessMode.to_int p value)

  unfoldable pub read_mode : ReadM ℕ
  read_mode = do value ← read_u32; return (FileMode.to_mode p value)

  unfoldable pub read_openflags : ReadM ℕ
  read_openflags = do value ← read_i32; return (OpenFlags.to_int p (to_u32 value))

  unfoldable pub read_attr : Fill Stat
  read_attr =
      field read_u64 (λ v a. record a { st_ino = v })
      ⨾ field read_u64 (λ v a. record a { st_nlink = v })
      ⨾ field read_mode (λ v a. record a { st_mode = v })
      ⨾ field read_u32 (λ v a. record a { st_uid = v })
      ⨾ field read_u32 (λ v a. record a { st_gid = v })
      ⨾ field read_u64 (λ v a. record a { st_rdev = v })
      ⨾ field read_u64 (λ v a. record a { st_size = v })
      ⨾ field read_u64 (λ v a. record a { st_blocks = v })
      ⨾ field read_u64 (λ v a. record a { st_atim = record (a.st_atim) { tv_sec = v } })
      ⨾ field read_u32 (λ v a. record a { st_atim = record (a.st_atim) { tv_nsec = v } })
      ⨾ field read_u64 (λ v a. record a { st_mtim = record (a.st_mtim) { tv_sec = v } })
      ⨾ field read_u32 (λ v a. record a { st_mtim = record (a.st_mtim) { tv_nsec = v } })
      ⨾ field read_u64 (λ v a. record a { st_ctim = record (a.st_ctim) { tv_sec = v } })
      ⨾ field read_u32 (λ v a. record a { st_ctim = record (a.st_ctim) { tv_nsec = v } })
