-- ===== src/Rpc/Buffers.antt =====
-- Operations whose result comes with a buffer that the caller gets filled, each over one exchange
-- that nothing disturbs.
use webfuse.Base.{ℕ, ◌%◌, ◌^◌, ◌<◌, ◌≡◌, refl, List, [], ◌++◌, append-nil, length, All, some}
use webfuse.Base.Int.{IsI32, to_i32, to_u32}
use webfuse.Flags.Platform.{Platform}
use webfuse.Flags.FileMode
use webfuse.Flags.FileMode.{HasFileModes, plain_mode}
use webfuse.Flags.OpenFlags
use webfuse.Flags.Status.Crossing.{HasLinuxErrnos}
use webfuse.Message.Bytes.{Bytes, be32, be64, counted}
use webfuse.Message.Data.{Stat, Statvfs}
use webfuse.Message.Types.{RequestType, request_code}
use webfuse.Message.Reader.Structures.{
  short_statistics, short_attr, read_attr-at, read_statistics-at, read_strings-at,
}
use webfuse.Message.Writer.Laws.{
  writer_laws, new_request-message, attr_bytes, statistics_bytes, strings_bytes, write_attr-message,
  write_str-message, write_u64-message, write_strings-message, write_statistics-message,
}
use webfuse.Message.Writer
use webfuse.Message.Reader
use webfuse.Message.Reader.{field, Fill}
use webfuse.Message.Reader.At.{read_str-at, read_u64-at, at}
use webfuse.Provider.Serve.{blank_stat, blank_statistics}
use webfuse.Fs.{FilesystemI, invalid_handle}
use webfuse.Fs.Remote
use webfuse.Fs.Empty
use webfuse.Rpc.Exchange.{exchange, receive, head, response, perform_fill-reply}
use webfuse.Rpc.Values.{mode_crosses}
use webfuse.Rpc.Decode
use webfuse.Provider.{dispatch}

-- The flags that the provider's `open` gets.
abbrev pub sent_flags : Platform → Platform → ℕ → ℕ
sent_flags p q flags =
    OpenFlags.to_int q (to_u32 (to_i32 (to_u32 (to_i32 (OpenFlags.from_int p flags)) % 2 ^ 32)))

-- The body of a response ends with what fills the buffer.
ends :
    {B : Type 0} (fill : Fill B) (front enc : Bytes) (old b : B)
    → fill (at front (enc ++ [])) old ≡ (some (at (front ++ enc) []), b)
    → fill (at front enc) old ≡ (some (at (front ++ enc) []), b)
ends fill front enc old b e = rw (append-nil enc) at e

module _ (p q : Platform) {S : Type 0} (fs : FilesystemI S) (id : ℕ) (small : id < 2 ^ 32)
    (linux : HasLinuxErrnos p) (s : S) where
  -- Over one exchange that nothing disturbs, between systems of which the service has the error
  -- numbers of Linux, `filesystem::getattr` returns the result of the provider's `getattr` on the
  -- same path; with the result 0 the caller's attributes become the provider's, 64-bit fields cut
  -- to 32 bits and the mode translated, and with any other result they stay. The path is shorter
  -- than 2 ^ 32, and the result is an `int32_t`.
  pub getattr-exchange :
      (path : Bytes) (old : Stat)
      → length path < 2 ^ 32
      → IsI32 (fs.getattr path blank_stat s).0
      → Remote.getattr p (exchange p q fs id) path old s
        ≡ receive old (short_attr p q) (fs.getattr path blank_stat s)
  unfolding Remote.getattr dispatch
  getattr-exchange path old h r = rw (new_request-message) (
      simp writer_laws (
        perform_fill-reply p q fs id small linux (Empty.getattr p path) (Reader.read_attr p) old
          (Writer.write_attr q) RequestType.getattr (counted path) s (short_attr p q)
          (attr_bytes q (fs.getattr path blank_stat s).1) (fs.getattr path blank_stat s) r
          (λ c f. write_attr-message q id c f _)
          (λ front.
            ends (Reader.read_attr p) front (attr_bytes q (fs.getattr path blank_stat s).1) old _
              (read_attr-at p q front [] _ old))
          (rw (append-nil (counted path)) at (
            Decode.fs_getattr-at q fs (head id (request_code RequestType.getattr)) []
              (response q id RequestType.getattr) s path h))))

  -- Over one exchange that nothing disturbs, between systems of which the service has the error
  -- numbers of Linux, `filesystem::readlink` returns the result of the provider's `readlink`;
  -- with the result 0 the caller's string becomes the target, else it stays. Path and target are
  -- shorter than 2 ^ 32, and the result is an `int32_t`.
  pub readlink-exchange :
      (path : Bytes) (old : Bytes)
      → length path < 2 ^ 32
      → length (fs.readlink path [] s).1 < 2 ^ 32
      → IsI32 (fs.readlink path [] s).0
      → Remote.readlink p (exchange p q fs id) path old s
        ≡ receive old (λ out. out) (fs.readlink path [] s)
  unfolding Remote.readlink dispatch
  readlink-exchange path old h hb r = rw (new_request-message) (
      simp writer_laws (
        perform_fill-reply p q fs id small linux (Empty.readlink p path)
          (field Reader.read_str (λ v _. v)) old Writer.write_str RequestType.readlink
          (counted path) s (λ out. out) (counted (fs.readlink path [] s).1) (fs.readlink path [] s)
          r (λ c f. write_str-message q id c f _)
          (λ front.
            ends (field Reader.read_str (λ v _. v)) front (counted (fs.readlink path [] s).1) old _
              (rw (read_str-at front _ [] hb, field) refl))
          (rw (append-nil (counted path)) at (
            Decode.fs_readlink-at q fs (head id (request_code RequestType.readlink)) []
              (response q id RequestType.readlink) s path h))))

  -- Over one exchange that nothing disturbs, between systems of which the service has the error
  -- numbers of Linux, `filesystem::open` passes the path and the flags, encoded by
  -- `openflags::from_int` and decoded by `to_int`, to the provider's `open` with an invalid
  -- handle, and returns its result; with the result 0 the caller gets the provider's handle
  -- modulo 2 ^ 32, else it keeps its own. The path is shorter than 2 ^ 32, and the result is an
  -- `int32_t`.
  pub open_file-exchange :
      (path : Bytes) (flags : ℕ) (old : ℕ)
      → length path < 2 ^ 32
      → IsI32 (fs.open_file path (sent_flags p q flags) invalid_handle s).0
      → Remote.open_file p (exchange p q fs id) path flags old s
        ≡ receive old
            (λ handle. handle % 2 ^ 32)
            (fs.open_file path (sent_flags p q flags) invalid_handle s)
  unfolding Remote.open_file dispatch
  open_file-exchange path flags old h r = rw (new_request-message) (
      simp writer_laws (
        perform_fill-reply p q fs id small linux (Empty.open_file p path flags)
          (field Reader.read_u64 (λ v _. v)) old Writer.write_u64 RequestType.open_file
          (counted path ++ be32 (to_u32 (to_i32 (OpenFlags.from_int p flags)))) s
          (λ handle. handle % 2 ^ 32)
          (be64 (fs.open_file path (sent_flags p q flags) invalid_handle s).1)
          (fs.open_file path (sent_flags p q flags) invalid_handle s) r
          (λ c f. write_u64-message q id c f _)
          (λ front.
            ends (field Reader.read_u64 (λ v _. v)) front
              (be64 (fs.open_file path (sent_flags p q flags) invalid_handle s).1) old _
              (rw (read_u64-at front [] _, field) refl))
          (rw (append-nil (be32 (to_u32 (to_i32 (OpenFlags.from_int p flags))))) at (
            Decode.fs_open-at q fs (head id (request_code RequestType.open_file)) []
              (response q id RequestType.open_file) s path
              (to_u32 (to_i32 (OpenFlags.from_int p flags))) h))))

  -- Over one exchange that nothing disturbs, between systems of which the service has the error
  -- numbers of Linux and both the file types of Linux, `filesystem::create` passes the path and
  -- the permissions and known file type of the mode to the provider's `create` with an invalid
  -- handle, and returns its result; with the result 0 the caller gets the provider's handle
  -- modulo 2 ^ 32, else it keeps its own. The path is shorter than 2 ^ 32, and the result is an
  -- `int32_t`.
  pub create-exchange :
      (path : Bytes) (mode : ℕ) (old : ℕ)
      → length path < 2 ^ 32
      → HasFileModes p
      → HasFileModes q
      → IsI32 (fs.create path (plain_mode mode) invalid_handle s).0
      → Remote.create p (exchange p q fs id) path mode old s
        ≡ receive old
            (λ handle. handle % 2 ^ 32)
            (fs.create path (plain_mode mode) invalid_handle s)
  unfolding Remote.create dispatch
  create-exchange path mode old h a b r = rw (new_request-message) (
      simp writer_laws (
        perform_fill-reply p q fs id small linux (Empty.create p path mode)
          (field Reader.read_u64 (λ v _. v)) old Writer.write_u64 RequestType.create
          (counted path ++ be32 (FileMode.from_mode p mode)) s (λ handle. handle % 2 ^ 32)
          (be64 (fs.create path (plain_mode mode) invalid_handle s).1)
          (fs.create path (plain_mode mode) invalid_handle s) r
          (λ c f. write_u64-message q id c f _)
          (λ front.
            ends (field Reader.read_u64 (λ v _. v)) front
              (be64 (fs.create path (plain_mode mode) invalid_handle s).1) old _
              (rw (read_u64-at front [] _, field) refl))
          (rw (mode_crosses p q mode a b, append-nil (be32 (FileMode.from_mode p mode))) at
            (Decode.fs_create-at q fs (head id (request_code RequestType.create)) []
              (response q id RequestType.create) s path (FileMode.from_mode p mode) h))))

  -- Over one exchange that nothing disturbs, between systems of which the service has the error
  -- numbers of Linux, `filesystem::readdir` returns the result of the provider's `readdir` on the
  -- same path; with the result 0 all entries are appended to the caller's, in their order, and
  -- with any other result nothing is. The path, the list and every entry are shorter than 2 ^ 32,
  -- and the result is an `int32_t`.
  pub readdir-exchange :
      (path : Bytes) (old : List Bytes)
      → length path < 2 ^ 32
      → length (fs.readdir path [] s).1 < 2 ^ 32
      → All (λ name. length name < 2 ^ 32) (fs.readdir path [] s).1
      → IsI32 (fs.readdir path [] s).0
      → Remote.readdir p (exchange p q fs id) path old s
        ≡ receive old (λ entries. old ++ entries) (fs.readdir path [] s)
  unfolding Remote.readdir dispatch
  readdir-exchange path old h hb hc r = rw (new_request-message) (
      simp writer_laws (
        perform_fill-reply p q fs id small linux (Empty.readdir p path) Reader.read_strings old
          Writer.write_strings RequestType.readdir (counted path) s (λ entries. old ++ entries)
          (strings_bytes (fs.readdir path [] s).1) (fs.readdir path [] s) r
          (λ c f. write_strings-message q id c f _)
          (λ front.
            ends Reader.read_strings front (strings_bytes (fs.readdir path [] s).1) old _
              (read_strings-at front [] _ old hb hc))
          (rw (append-nil (counted path)) at (
            Decode.fs_readdir-at q fs (head id (request_code RequestType.readdir)) []
              (response q id RequestType.readdir) s path h))))

  -- Over one exchange that nothing disturbs, between systems of which the service has the error
  -- numbers of Linux, `filesystem::statfs` returns the result of the provider's `statfs`; with
  -- the result 0 the caller's statistics become the provider's, each field modulo 2 ^ 32, else
  -- they stay. The path is shorter than 2 ^ 32, and the result is an `int32_t`.
  pub statfs-exchange :
      (path : Bytes) (old : Statvfs)
      → length path < 2 ^ 32
      → IsI32 (fs.statfs path blank_statistics s).0
      → Remote.statfs p (exchange p q fs id) path old s
        ≡ receive old short_statistics (fs.statfs path blank_statistics s)
  unfolding Remote.statfs dispatch
  statfs-exchange path old h r = rw (new_request-message) (
      simp writer_laws (
        perform_fill-reply p q fs id small linux (Empty.statfs p path) Reader.read_statistics old
          Writer.write_statistics RequestType.statfs (counted path) s short_statistics
          (statistics_bytes (fs.statfs path blank_statistics s).1)
          (fs.statfs path blank_statistics s) r (λ c f. write_statistics-message q id c f _)
          (λ front.
            ends Reader.read_statistics front
              (statistics_bytes (fs.statfs path blank_statistics s).1) old _
              (read_statistics-at front [] _ old))
          (rw (append-nil (counted path)) at (
            Decode.fs_statfs-at q fs (head id (request_code RequestType.statfs)) []
              (response q id RequestType.statfs) s path h))))
