-- ===== src/Tests/Calls.antt =====
-- The operations of the remote file system at concrete inputs.
use webfuse.Base.{◌^◌, ◌+◌, ◌≡◌, [], ◌∷◌, arith}
use webfuse.Base.Int.{pos}
use webfuse.Fs.Remote
use webfuse.Message.Bytes.{Bytes}
use webfuse.Message.Data.{Timespec}
use webfuse.Flags.FileMode
use webfuse.Rpc.Exchange.{exchange, arrive}
use webfuse.Rpc.Files
use webfuse.Tests.Samples.{linux, sample, linux-HasFileModes}

abbrev root : Bytes
root = b'/' ∷ []

abbrev file : Bytes
file = b'/' ∷ b'a' ∷ []

abbrev noon : Timespec
noon = record { tv_sec = 2 ^ 32 + 43200; tv_nsec = 5 }

mknod-exchange_example :
    Remote.mknod linux (exchange linux linux sample 1) file 0o20600 259 []
    ≡ arrive linux (pos 0, 0o20600 ∷ 0 ∷ [])
unfolding FileMode.plain_mode FileMode.known_kind
mknod-exchange_example =
    Files.mknod-exchange linux linux sample 1 (omega arith) [] file 0o20600 259 (omega arith)
      linux-HasFileModes linux-HasFileModes (omega arith)

write-exchange_example :
    Remote.write linux (exchange linux linux sample 1) file (1 ∷ 2 ∷ []) 4 3 []
    ≡ arrive linux (pos 2, 4 ∷ 3 ∷ [])
write-exchange_example =
    Files.write-exchange linux linux sample 1 (omega arith) [] file (1 ∷ 2 ∷ []) 4 3 (omega arith)
      (omega arith) (omega arith)
