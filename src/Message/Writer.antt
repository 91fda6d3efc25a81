-- ===== src/Message/Writer.antt =====
-- `messagewriter`: src/webfuse/ws/messagewriter.hpp and messagewriter.cpp. The vector `data` keeps
-- `LWS_PRE` bytes free in front of the message. A moved-from writer is not used again, so a move
-- is the value itself.
pub mod Shape
pub mod Laws
use webfuse.Base.{
  ℕ, suc, ◌+◌, ◌-◌, ◌/◌, ◌%◌, ◌^◌, List, [], ◌∷◌, ◌++◌, Bool, true, false, length, set, take, drop,
  replicate, ltb, if◌then◌else◌,
}
use webfuse.Base.Int.{ℤ, to_u32, to_i32}
use webfuse.Flags.Platform.{Platform}
use webfuse.Flags.AccessMode
use webfuse.Flags.FileMode
use webfuse.Flags.OpenFlags
use webfuse.Flags.RenameFlags.{rename_flags}
use webfuse.Message.Bytes.{Bytes}
use webfuse.Message.Types.{RequestType, ResponseType, request_code, response_code}
use webfuse.Message.Data.{Timespec, Stat, Statvfs}

pub record Writer : Type 0 where
  pub id : ℕ
  pub bytes : Bytes

-- `data.resize(data.size() + n)`
grow : ℕ → Bytes → Bytes
grow n bytes = bytes ++ replicate n 0

-- The four assignments `data[offset + i] = (value >> ...) & 0xff`.
store4 : ℕ → ℕ → Bytes → Bytes
store4 offset value bytes =
    set
      (set
        (set (set bytes (offset + 0) (value / 2 ^ 24 % 2 ^ 8)) (offset + 1)
          (value / 2 ^ 16 % 2 ^ 8))
        (offset + 2) (value / 2 ^ 8 % 2 ^ 8))
      (offset + 3) (value % 2 ^ 8)

-- `memcpy(&data[offset], buffer, size)`
copy_to : ℕ → Bytes → ℕ → Bytes → Bytes
copy_to offset buffer size bytes =
    take offset bytes ++ (take size buffer ++ drop (offset + size) bytes)

unfoldable pub write_u8 : ℕ → Writer → Writer
write_u8 value w = record w { bytes = w.bytes ++ value ∷ [] }

unfoldable pub write_u32 : ℕ → Writer → Writer
unfolding grow store4
write_u32 value w = record w { bytes = store4 (length w.bytes) value (grow 4 w.bytes) }

unfoldable pub write_u64 : ℕ → Writer → Writer
unfolding grow store4
write_u64 value w =
    let offset = length w.bytes in
    record w { bytes = store4 (offset + 4) value (store4 offset (value / 2 ^ 32) (grow 8 w.bytes)) }

-- The message of a type, with the id 0.
unfoldable pub new_message : Platform → ℕ → Writer
new_message p code = write_u8 code (write_u32 0 (record { id = 0; bytes = replicate p.lws_pre 0 }))

-- `messagewriter(request_type req_type)`
unfoldable pub new_request : Platform → RequestType → Writer
unfolding new_message
new_request p req_type = new_message p (request_code req_type)

-- `messagewriter(response_type res_type)`
unfoldable pub new_response : Platform → ResponseType → Writer
unfolding new_message
new_response p res_type = new_message p (response_code res_type)

unfoldable pub set_id : Platform → ℕ → Writer → Writer
unfolding store4
set_id p value w = record { id = value; bytes = store4 p.lws_pre value w.bytes }

unfoldable pub get_id : Writer → ℕ
get_id w = w.id

unfoldable pub write_bool : Bool → Writer → Writer
write_bool value w = record w { bytes = w.bytes ++ (if value then 0x01 else 0x00) ∷ [] }

-- The value is the bit pattern of an `int8_t`.
unfoldable pub write_i8 : ℕ → Writer → Writer
write_i8 value w = record w { bytes = w.bytes ++ value ∷ [] }

unfoldable pub write_i32 : ℤ → Writer → Writer
write_i32 value w = write_u32 (to_u32 value) w

-- `size` is the length of `buffer`; `& 0xffffffff` is the remainder by 2 ^ 32.
unfoldable pub write_data : Bytes → Writer → Writer
unfolding grow copy_to
write_data buffer w =
    let effective_size = length buffer % 2 ^ 32 in
    let counted = write_u32 effective_size w in
    if ltb 0 (length buffer)
    then record counted {
      bytes =
          copy_to (length counted.bytes) buffer effective_size (grow effective_size counted.bytes);
    }
    else counted

unfoldable pub write_str : Bytes → Writer → Writer
write_str value w = write_data value w

-- The loop over the items.
unfoldable pub write_items : List Bytes → Writer → Writer
write_items [] w = w
write_items (item ∷ items) w = write_items items (write_str item w)

unfoldable pub write_strings : List Bytes → Writer → Writer
write_strings list w = write_items list (write_u32 (length list % 2 ^ 32) w)

-- The casts of seconds and nanoseconds: `long` has 64 bits.
unfoldable pub write_time : Timespec → Writer → Writer
write_time value w = write_u32 (value.tv_nsec % 2 ^ 32) (write_u64 value.tv_sec w)

unfoldable pub write_uid : ℕ → Writer → Writer
write_uid value w = write_u32 value w

unfoldable pub write_gid : ℕ → Writer → Writer
write_gid value w = write_u32 value w

unfoldable pub write_statistics : Statvfs → Writer → Writer
write_statistics statistics w = write_u64 statistics.f_namemax (
    write_u64 statistics.f_ffree (
      write_u64 statistics.f_files (
        write_u64 statistics.f_bavail (
          write_u64 statistics.f_bfree (
            write_u64 statistics.f_blocks
              (write_u64 statistics.f_frsize (write_u64 statistics.f_bsize w)))))))

module _ (p : Platform) where
  unfoldable pub write_access_mode : ℕ → Writer → Writer
  write_access_mode value w = write_i8 (AccessMode.from_int p value) w

  unfoldable pub write_rename_flags : ℕ → Writer → Writer
  write_rename_flags value w = write_u8 (rename_flags p value) w

  unfoldable pub write_mode : ℕ → Writer → Writer
  write_mode value w = write_u32 (FileMode.from_mode p value) w

  unfoldable pub write_openflags : ℕ → Writer → Writer
  write_openflags value w = write_i32 (to_i32 (OpenFlags.from_int p value)) w

  unfoldable pub write_attr : Stat → Writer → Writer
  write_attr attr w = write_time attr.st_ctim (
      write_time attr.st_mtim (
        write_time attr.st_atim (
          write_u64 attr.st_blocks (
            write_u64 attr.st_size (
              write_u64 attr.st_rdev (
                write_u32 attr.st_gid (
                  write_u32 attr.st_uid (
                    write_mode (FileMode.from_mode p attr.st_mode)
                      (write_u64 attr.st_nlink (write_u64 attr.st_ino w))))))))))

  -- What `lws_write` sends: the bytes behind the reserved ones.
  unfoldable pub get_data : Writer → Bytes
  get_data w = drop p.lws_pre w.bytes
