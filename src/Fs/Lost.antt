-- ===== src/Fs/Lost.antt =====
-- What the remote file system shows while requests fail: src/webfuse/filesystem.cpp, the `catch` of every
-- operation.
use webfuse.Base.{◌≡◌, refl, Option, none}
use webfuse.Flags.Platform.{Platform}
use webfuse.Message.Reader.{Reader}
use webfuse.Message.Writer.{Writer}
use webfuse.Fs.Empty.{empty_filesystem}
use webfuse.Fs.Remote
use webfuse.Fs.Remote.{filesystem}

-- A proxy whose every request throws, and changes nothing.
abbrev pub unanswered : {S : Type 0} → Writer → S → Option Reader × S
unanswered request s = (none, s)

-- While every request throws, the remote file system is the empty file system, in every operation
-- and for all arguments; only `get_credentials` throws itself.
pub filesystem-unanswered :
    (p : Platform) {S : Type 0}
    → filesystem p (unanswered {S = S})
      ≡ record (empty_filesystem p {S = S}) { get_credentials = λ s. (none, s) }
unfolding filesystem empty_filesystem Remote.access Remote.getattr Remote.readlink Remote.symlink
    Remote.link Remote.rename Remote.chmod Remote.chown Remote.truncate Remote.fsync Remote.utimens
    Remote.open_file Remote.mknod Remote.create Remote.release Remote.unlink Remote.read
    Remote.write Remote.mkdir Remote.readdir Remote.rmdir Remote.statfs Remote.get_credentials
    Remote.perform Remote.perform_fill Remote.settle Remote.settle_fill
filesystem-unanswered p = refl
