-- ===== src/Provider.antt =====
-- `provider::detail::on_message` of src/webfuse/provider.cpp: how a provider answers a request from
-- its file system. An exception is `none`: the client then sends no response.
pub mod Serve
pub mod Handlers
pub mod Answers
pub mod Session
use webfuse.Base.{
  ℕ, ◌-◌, ◌^◌, ◌+◌, List, [], ◌∷◌, ◌++◌, Bool, Option, none, some, length, take, replicate, leb,
  if◌then◌else◌,
}
use webfuse.Base.Int.{ℤ, is_zero, is_positive, magnitude}
use webfuse.Flags.Platform.{Platform}
use webfuse.Message.Bytes.{Bytes}
use webfuse.Message.Data.{Timespec, Stat, Statvfs}
use webfuse.Message.Types.{RequestType, get_request_type, get_response_type}
use webfuse.Message.Writer
use webfuse.Message.Writer.{Writer}
use webfuse.Message.Reader
use webfuse.Message.Reader.{Reader, ReadM, ◌>>=◌, return}
use webfuse.Fs.{FilesystemI, invalid_handle}
use Serve.{Handler}
use Handlers.{
  fs_access, fs_getattr, fs_readlink, fs_symlink, fs_link, fs_rename, fs_chmod, fs_chown,
  fs_truncate, fs_fsync, fs_utimens, fs_open, fs_mknod, fs_create, fs_release, fs_unlink, fs_read,
  fs_write, fs_mkdir, fs_rmdir, fs_readdir, fs_statfs, fs_get_credentials,
}

module _ (p : Platform) {S : Type 0} (fs : FilesystemI S) where
  -- The `switch` of `on_message`. A request of unknown type is answered without a body.
  unfoldable pub dispatch : RequestType → Handler S
  dispatch RequestType.access = fs_access p fs
  dispatch RequestType.getattr = fs_getattr p fs
  dispatch RequestType.readlink = fs_readlink p fs
  dispatch RequestType.symlink = fs_symlink p fs
  dispatch RequestType.link = fs_link p fs
  dispatch RequestType.rename = fs_rename p fs
  dispatch RequestType.chmod = fs_chmod p fs
  dispatch RequestType.chown = fs_chown p fs
  dispatch RequestType.truncate = fs_truncate p fs
  dispatch RequestType.fsync = fs_fsync p fs
  dispatch RequestType.utimens = fs_utimens p fs
  dispatch RequestType.open_file = fs_open p fs
  dispatch RequestType.mknod = fs_mknod p fs
  dispatch RequestType.create = fs_create p fs
  dispatch RequestType.release = fs_release p fs
  dispatch RequestType.unlink = fs_unlink p fs
  dispatch RequestType.read = fs_read p fs
  dispatch RequestType.write = fs_write p fs
  dispatch RequestType.mkdir = fs_mkdir p fs
  dispatch RequestType.readdir = fs_readdir p fs
  dispatch RequestType.rmdir = fs_rmdir p fs
  dispatch RequestType.statfs = fs_statfs p fs
  dispatch RequestType.getcreds = fs_get_credentials p fs
  dispatch RequestType.unknown = λ reader writer s. (some writer, s)

  -- The reader's head is the id and the type of the request.
  abbrev read_head : ReadM (ℕ × ℕ)
  read_head = do
    message_id ← Reader.read_u32
    req_type ← Reader.read_u8
    return (message_id, req_type)

  respond : ℕ → RequestType → Reader → S → Option Writer × S
  respond message_id req_type reader s =
      let writer = Writer.new_response p (get_response_type req_type) in
      dispatch req_type reader (Writer.set_id p message_id writer) s

  unfoldable pub on_message : Reader → S → Option Writer × S
  unfolding respond
  on_message reader s = elim (read_head reader) [
    | none ↦ (none, s)
    | some ((message_id, req_type), rest) ↦ respond message_id (get_request_type req_type) rest s
  ]
