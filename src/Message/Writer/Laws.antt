-- ===== src/Message/Writer/Laws.antt =====
-- Each write operation adds the encoding of its value to the body of a message.
use webfuse.Base.{
  ℕ, ◌%◌, ◌^◌, ◌<◌, ◌≡◌, refl, ap, ◌∙◌, List, [], ◌∷◌, ◌++◌, Bool, length, if◌then◌else◌,
  append_assoc,
}
use webfuse.Base.Int.{ℤ, to_u32, to_i32}
use webfuse.Flags.Platform.{Platform}
use webfuse.Flags.AccessMode
use webfuse.Flags.FileMode
use webfuse.Flags.OpenFlags
use webfuse.Flags.RenameFlags.{rename_flags}
use webfuse.Message.Bytes.{Bytes, be32, be64, counted}
use webfuse.Message.Data.{Timespec, Stat, Statvfs}
use webfuse.Message.Types.{RequestType, ResponseType, request_code, response_code}
use webfuse.Message.Writer
use webfuse.Message.Writer.Shape.{
  write_u32-put, write_u64-put, write_i32-put, write_data-put, write_items-put, counted_items,
  message, put-message, new_message-message,
}

-- The encodings of the structures.
unfoldable pub time_bytes : Timespec → Bytes
time_bytes t = be64 t.tv_sec ++ be32 (t.tv_nsec % 2 ^ 32)

unfoldable pub strings_bytes : List Bytes → Bytes
strings_bytes list = be32 (length list % 2 ^ 32) ++ counted_items list

unfoldable pub statistics_bytes : Statvfs → Bytes
statistics_bytes s =
    be64 s.f_bsize
    ++ (be64 s.f_frsize
        ++ (be64 s.f_blocks
            ++ (be64 s.f_bfree
                ++ (be64 s.f_bavail ++ (be64 s.f_files ++ (be64 s.f_ffree ++ be64 s.f_namemax))))))

unfoldable pub attr_bytes : Platform → Stat → Bytes
attr_bytes p a =
    be64 a.st_ino
    ++ (be64 a.st_nlink
        ++ (be32 (FileMode.from_mode p (FileMode.from_mode p a.st_mode))
            ++ (be32 a.st_uid
                ++ (be32 a.st_gid
                    ++ (be64 a.st_rdev
                        ++ (be64 a.st_size
                            ++ (be64 a.st_blocks
                                ++ (time_bytes a.st_atim
                                    ++ (time_bytes a.st_mtim ++ time_bytes a.st_ctim)))))))))

module _ (p : Platform) (id code : ℕ) (body : Bytes) where
  pub write_u8-message :
      (v : ℕ) → Writer.write_u8 v (message p id code body) ≡ message p id code (body ++ v ∷ [])
  unfolding Writer.write_u8
  write_u8-message v = put-message p id code body (v ∷ [])

  pub write_i8-message :
      (v : ℕ) → Writer.write_i8 v (message p id code body) ≡ message p id code (body ++ v ∷ [])
  unfolding Writer.write_i8
  write_i8-message v = put-message p id code body (v ∷ [])

  pub write_bool-message :
      (v : Bool)
      → Writer.write_bool v (message p id code body)
        ≡ message p id code (body ++ (if v then 1 else 0) ∷ [])
  unfolding Writer.write_bool
  write_bool-message v = put-message p id code body ((if v then 1 else 0) ∷ [])

  pub write_u32-message :
      (v : ℕ) → Writer.write_u32 v (message p id code body) ≡ message p id code (body ++ be32 v)
  write_u32-message v = write_u32-put v _ ∙ put-message p id code body (be32 v)

  pub write_i32-message :
      (v : ℤ)
      → Writer.write_i32 v (message p id code body) ≡ message p id code (body ++ be32 (to_u32 v))
  write_i32-message v = write_i32-put v _ ∙ put-message p id code body (be32 (to_u32 v))

  pub write_u64-message :
      (v : ℕ) → Writer.write_u64 v (message p id code body) ≡ message p id code (body ++ be64 v)
  write_u64-message v = write_u64-put v _ ∙ put-message p id code body (be64 v)

  pub write_data-message :
      (s : Bytes)
      → Writer.write_data s (message p id code body) ≡ message p id code (body ++ counted s)
  write_data-message s = write_data-put s _ ∙ put-message p id code body (counted s)

  pub write_str-message :
      (s : Bytes)
      → Writer.write_str s (message p id code body) ≡ message p id code (body ++ counted s)
  unfolding Writer.write_str
  write_str-message s = write_data-message s

pub ruleset basic_laws = (
  write_u8-message, write_i8-message, write_bool-message, write_u32-message, write_i32-message,
  write_u64-message, write_data-message, write_str-message, append_assoc,
)

module _ (p : Platform) (id code : ℕ) (body : Bytes) where
  pub write_strings-message :
      (list : List Bytes)
      → Writer.write_strings list (message p id code body)
        ≡ message p id code (body ++ strings_bytes list)
  unfolding Writer.write_strings strings_bytes
  write_strings-message list =
      rw (write_u32-message, write_items-put, put-message, append_assoc) refl

  pub write_time-message :
      (t : Timespec)
      → Writer.write_time t (message p id code body) ≡ message p id code (body ++ time_bytes t)
  unfolding Writer.write_time time_bytes
  write_time-message t = simp basic_laws

  pub write_statistics-message :
      (s : Statvfs)
      → Writer.write_statistics s (message p id code body)
        ≡ message p id code (body ++ statistics_bytes s)
  unfolding Writer.write_statistics statistics_bytes
  write_statistics-message s = simp basic_laws

  pub write_access_mode-message :
      (v : ℕ)
      → Writer.write_access_mode p v (message p id code body)
        ≡ message p id code (body ++ AccessMode.from_int p v ∷ [])
  unfolding Writer.write_access_mode
  write_access_mode-message v = write_i8-message p id code body _

  pub write_rename_flags-message :
      (v : ℕ)
      → Writer.write_rename_flags p v (message p id code body)
        ≡ message p id code (body ++ rename_flags p v ∷ [])
  unfolding Writer.write_rename_flags
  write_rename_flags-message v = write_u8-message p id code body _

  pub write_mode-message :
      (v : ℕ)
      → Writer.write_mode p v (message p id code body)
        ≡ message p id code (body ++ be32 (FileMode.from_mode p v))
  unfolding Writer.write_mode
  write_mode-message v = write_u32-message p id code body _

  pub write_uid-message :
      (v : ℕ) → Writer.write_uid v (message p id code body) ≡ message p id code (body ++ be32 v)
  unfolding Writer.write_uid
  write_uid-message v = write_u32-message p id code body v

  pub write_gid-message :
      (v : ℕ) → Writer.write_gid v (message p id code body) ≡ message p id code (body ++ be32 v)
  unfolding Writer.write_gid
  write_gid-message v = write_u32-message p id code body v

  pub write_openflags-message :
      (v : ℕ)
      → Writer.write_openflags p v (message p id code body)
        ≡ message p id code (body ++ be32 (to_u32 (to_i32 (OpenFlags.from_int p v))))
  unfolding Writer.write_openflags
  write_openflags-message v = write_i32-message p id code body _

module _ (p : Platform) where
  pub new_request-message :
      (t : RequestType) → Writer.new_request p t ≡ message p 0 (request_code t) []
  unfolding Writer.new_request
  new_request-message t = new_message-message p (request_code t)

  pub new_response-message :
      (t : ResponseType) → Writer.new_response p t ≡ message p 0 (response_code t) []
  unfolding Writer.new_response
  new_response-message t = new_message-message p (response_code t)

pub ruleset writer_laws = (
  basic_laws, write_strings-message, write_time-message, write_statistics-message,
  write_access_mode-message, write_rename_flags-message, write_mode-message, write_uid-message,
  write_gid-message, write_openflags-message,
)

pub write_attr-message :
    (p : Platform) (id code : ℕ) (body : Bytes) (a : Stat)
    → Writer.write_attr p a (message p id code body) ≡ message p id code (body ++ attr_bytes p a)
unfolding Writer.write_attr attr_bytes
write_attr-message p id code body a = simp writer_laws
