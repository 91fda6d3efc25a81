-- ===== src/Provider/Answers.antt =====
-- What every response of a provider has in common.
use webfuse.Base.{
  ℕ, ◌%◌, ◌^◌, ◌<◌, ◌≡◌, refl, List, [], ◌∷◌, ◌++◌, Option, none, some, if-both, length, leb,
  replicate, arith,
}
use webfuse.Base.Int.{ℤ, is_zero, is_positive, magnitude}
use webfuse.Flags.Platform.{Platform}
use webfuse.Message.Bytes.{Bytes, be32}
use webfuse.Message.Data.{Stat, Statvfs}
use webfuse.Message.Types.{RequestType, get_request_type, get_response_type, response_code}
use webfuse.Message.Writer
use webfuse.Message.Writer.{Writer}
use webfuse.Message.Writer.Shape.{message, set_id-message}
use webfuse.Message.Writer.Laws.{
  write_i32-message, write_u64-message, write_data-message, write_str-message,
  write_strings-message, write_statistics-message, write_attr-message, new_response-message,
}
use webfuse.Message.Reader.{Reader, new_reader, ◌>>=◌, return, read_str, read_u32, read_u64}
use webfuse.Message.Reader.At.{at, new_reader-at, reader_laws}
use webfuse.Fs.{FilesystemI}
use webfuse.Provider.{dispatch, on_message}
use webfuse.Provider.Serve.{reply, reply_unless_thrown, reply_with, reply_data}
use webfuse.Provider.Handlers

-- A message with this id and type.
unfoldable pub HasHead : Platform → ℕ → ℕ → Writer → Type 0
HasHead q id code w = (body : Bytes) × (w ≡ message q id code body)

-- No response, or one with this id and type.
unfoldable pub IsAnswer : Platform → ℕ → ℕ → {S : Type 0} → Option Writer × S → Type 0
IsAnswer q id code (none, s) = Unit
IsAnswer q id code (some w, s) = HasHead q id code w

module _ (q : Platform) {S : Type 0} (id code : ℕ) where
  -- What a handler answers, whatever became of its arguments.
  from-IsAnswer :
      {A : Type 0} (arguments : Option ((S → A) × Reader)) (answer : A → Option Writer × S)
      → ((a : A) → IsAnswer q id code (answer a))
      → (s : S)
      → IsAnswer q id code {S = S}
          (elim arguments [ none ↦ (none, s) | some (call, _) ↦ answer (call s) ])
  unfolding IsAnswer
  from-IsAnswer none answer h s = record {}
  from-IsAnswer (some (call, rest)) answer h s = h (call s)

  reply-IsAnswer : (out : ℤ × S) → IsAnswer q id code (reply (message q id code []) out)
  unfolding IsAnswer HasHead
  reply-IsAnswer (result, s) = (_, write_i32-message q id code [] result)

  unless_thrown-IsAnswer :
      (out : Option ℤ × S) → IsAnswer q id code (reply_unless_thrown (message q id code []) out)
  unfolding IsAnswer
  unless_thrown-IsAnswer (none, s) = record {}
  unless_thrown-IsAnswer (some result, s) = reply-IsAnswer (result, s)

  reply_with-IsAnswer :
      {B : Type 0} (write : B → Writer → Writer)
      → ((b : B) (body : Bytes) → HasHead q id code (write b (message q id code body)))
      → (out : ℤ × B × S) → IsAnswer q id code (reply_with write (message q id code []) out)
  unfolding IsAnswer HasHead
  reply_with-IsAnswer write h (result, b, s) =
      rw (write_i32-message q id code [] result)
        (if-both (HasHead q id code) (is_zero result) (h b _) (_, refl))

  reply_data-IsAnswer :
      (out : ℤ × Bytes × S) → IsAnswer q id code (reply_data (message q id code []) out)
  unfolding IsAnswer HasHead
  reply_data-IsAnswer (result, buffer, s) = rw (write_i32-message q id code [] result) (
      if-both (IsAnswer q id code {S = S}) (is_positive result)
        (if-both (IsAnswer q id code {S = S}) (leb (magnitude result) (length buffer))
          (_, write_data-message q id code _ _) (record {}))
        (_, refl))

module _ (q : Platform) {S : Type 0} (fs : FilesystemI S) (id code : ℕ) where
  credentials-IsAnswer :
      (out : Option Bytes × S)
      → IsAnswer q id code (Handlers.reply_credentials q fs (message q id code []) out)
  unfolding IsAnswer HasHead
  credentials-IsAnswer (none, s) = record {}
  credentials-IsAnswer (some c, s) = (_, write_str-message q id code [] c)

  attr-HasHead :
      (b : Stat) (body : Bytes) → HasHead q id code (Writer.write_attr q b (message q id code body))
  unfolding HasHead
  attr-HasHead b body = (_, write_attr-message q id code body b)

  str-HasHead :
      (b : Bytes) (body : Bytes) → HasHead q id code (Writer.write_str b (message q id code body))
  unfolding HasHead
  str-HasHead b body = (_, write_str-message q id code body b)

  u64-HasHead :
      (b : ℕ) (body : Bytes) → HasHead q id code (Writer.write_u64 b (message q id code body))
  unfolding HasHead
  u64-HasHead b body = (_, write_u64-message q id code body b)

  strings-HasHead :
      (b : List Bytes) (body : Bytes)
      → HasHead q id code (Writer.write_strings b (message q id code body))
  unfolding HasHead
  strings-HasHead b body = (_, write_strings-message q id code body b)

  statistics-HasHead :
      (b : Statvfs) (body : Bytes)
      → HasHead q id code (Writer.write_statistics b (message q id code body))
  unfolding HasHead
  statistics-HasHead b body = (_, write_statistics-message q id code body b)

  bare-IsAnswer : (s : S) → IsAnswer q id code (some (message q id code []), s)
  unfolding IsAnswer HasHead
  bare-IsAnswer s = ([], refl)

  dispatch-IsAnswer :
      (t : RequestType) (reader : Reader) (s : S)
      → IsAnswer q id code (dispatch q fs t reader (message q id code []) s)
  unfolding dispatch Handlers.fs_access Handlers.fs_getattr Handlers.fs_readlink Handlers.fs_symlink
      Handlers.fs_link Handlers.fs_rename Handlers.fs_chmod Handlers.fs_chown Handlers.fs_truncate
      Handlers.fs_fsync Handlers.fs_utimens Handlers.fs_open Handlers.fs_mknod Handlers.fs_create
      Handlers.fs_release Handlers.fs_unlink Handlers.fs_read Handlers.fs_write Handlers.fs_mkdir
      Handlers.fs_readdir Handlers.fs_rmdir Handlers.fs_statfs Handlers.fs_get_credentials
  dispatch-IsAnswer RequestType.access reader s =
      from-IsAnswer q id code _ (reply (message q id code [])) (reply-IsAnswer q id code) s
  dispatch-IsAnswer RequestType.getattr reader s =
      from-IsAnswer q id code _ _ (reply_with-IsAnswer q id code (Writer.write_attr q) attr-HasHead)
        s
  dispatch-IsAnswer RequestType.readlink reader s =
      from-IsAnswer q id code _ _ (reply_with-IsAnswer q id code Writer.write_str str-HasHead) s
  dispatch-IsAnswer RequestType.symlink reader s =
      from-IsAnswer q id code
        ((do from ← read_str; to ← read_str; return (fs.symlink from to)) reader) _
        (unless_thrown-IsAnswer q id code) s
  dispatch-IsAnswer RequestType.link reader s =
      from-IsAnswer q id code _ (reply (message q id code [])) (reply-IsAnswer q id code) s
  dispatch-IsAnswer RequestType.rename reader s =
      from-IsAnswer q id code _ (reply (message q id code [])) (reply-IsAnswer q id code) s
  dispatch-IsAnswer RequestType.chmod reader s =
      from-IsAnswer q id code _ (reply (message q id code [])) (reply-IsAnswer q id code) s
  dispatch-IsAnswer RequestType.chown reader s =
      from-IsAnswer q id code _ (reply (message q id code [])) (reply-IsAnswer q id code) s
  dispatch-IsAnswer RequestType.truncate reader s =
      from-IsAnswer q id code _ (reply (message q id code [])) (reply-IsAnswer q id code) s
  dispatch-IsAnswer RequestType.fsync reader s =
      from-IsAnswer q id code _ (reply (message q id code [])) (reply-IsAnswer q id code) s
  dispatch-IsAnswer RequestType.utimens reader s =
      from-IsAnswer q id code _ (reply (message q id code [])) (reply-IsAnswer q id code) s
  dispatch-IsAnswer RequestType.open_file reader s =
      from-IsAnswer q id code _ _ (reply_with-IsAnswer q id code Writer.write_u64 u64-HasHead) s
  dispatch-IsAnswer RequestType.mknod reader s =
      from-IsAnswer q id code _ (reply (message q id code [])) (reply-IsAnswer q id code) s
  dispatch-IsAnswer RequestType.create reader s =
      from-IsAnswer q id code _ _ (reply_with-IsAnswer q id code Writer.write_u64 u64-HasHead) s
  dispatch-IsAnswer RequestType.release reader s =
      from-IsAnswer q id code _ (reply (message q id code [])) (reply-IsAnswer q id code) s
  dispatch-IsAnswer RequestType.unlink reader s =
      from-IsAnswer q id code _ (reply (message q id code [])) (reply-IsAnswer q id code) s
  dispatch-IsAnswer RequestType.read reader s =
      from-IsAnswer q id code
        ((do
          path ← read_str
          size ← read_u32
          offset ← read_u64
          handle ← read_u64
          return (fs.read path offset handle (replicate size 0)))
          reader)
        _ (reply_data-IsAnswer q id code) s
  dispatch-IsAnswer RequestType.write reader s =
      from-IsAnswer q id code _ (reply (message q id code [])) (reply-IsAnswer q id code) s
  dispatch-IsAnswer RequestType.mkdir reader s =
      from-IsAnswer q id code _ (reply (message q id code [])) (reply-IsAnswer q id code) s
  dispatch-IsAnswer RequestType.readdir reader s =
      from-IsAnswer q id code _ _
        (reply_with-IsAnswer q id code Writer.write_strings strings-HasHead) s
  dispatch-IsAnswer RequestType.rmdir reader s =
      from-IsAnswer q id code _ (reply (message q id code [])) (reply-IsAnswer q id code) s
  dispatch-IsAnswer RequestType.statfs reader s =
      from-IsAnswer q id code _ _
        (reply_with-IsAnswer q id code Writer.write_statistics statistics-HasHead) s
  dispatch-IsAnswer RequestType.getcreds reader s = credentials-IsAnswer (fs.get_credentials s)
  dispatch-IsAnswer RequestType.unknown reader s = bare-IsAnswer s

  on_message-dispatch :
      (body : Bytes) (s : S)
      → id < 2 ^ 32
      → code < 2 ^ 8
      → on_message q fs (new_reader (be32 id ++ code ∷ body)) s
        ≡ dispatch q fs
            (get_request_type code)
            (at (be32 id ++ code ∷ []) body)
            (message q id (response_code (get_response_type (get_request_type code))) [])
            s
  unfolding on_message
  on_message-dispatch body s small byte =
      let e : id % 2 ^ 32 ≡ id = omega arith in
      let f : code % 2 ^ 8 ≡ code = omega arith in
      simp (new_reader-at, reader_laws, e, f, on_message, new_response-message, set_id-message)

-- Whatever a request of any type contains after its id, below 2 ^ 32, and its type, a provider
-- either sends no response, or one that carries the id of the request and the response type to
-- its type.
pub on_message-IsAnswer :
    (q : Platform) {S : Type 0} (fs : FilesystemI S) (id code : ℕ) (body : Bytes) (s : S)
    → id < 2 ^ 32
    → code < 2 ^ 8
    → IsAnswer q id
        (response_code (get_response_type (get_request_type code)))
        (on_message q fs (new_reader (be32 id ++ code ∷ body)) s)
on_message-IsAnswer q fs id code body s small byte =
    rw (on_message-dispatch q fs id code body s small byte) (
      dispatch-IsAnswer q fs id (response_code (get_response_type (get_request_type code)))
        (get_request_type code) (at (be32 id ++ code ∷ []) body) s)
