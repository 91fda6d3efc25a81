-- ===== src/Tests/Buffers.antt =====
-- The operations of the remote file system that fill a buffer, at concrete inputs.
use webfuse.Base.{◌^◌, ◌+◌, ◌≡◌, refl, List, [], ◌∷◌, replicate, arith}
use webfuse.Base.Int.{pos}
use webfuse.Fs.Remote
use webfuse.Message.Bytes.{Bytes}
use webfuse.Message.Data.{Stat}
use webfuse.Message.Reader.Structures.{short_attr}
use webfuse.Provider.Serve.{blank_stat}
use webfuse.Rpc.Exchange.{exchange, receive}
use webfuse.Rpc.Buffers
use webfuse.Rpc.Buffers.{sent_flags}
use webfuse.Rpc.Read
use webfuse.Rpc.Read.{receive_data}
use webfuse.Tests.Samples.{linux, sample, linux-HasLinuxErrnos}

abbrev file : Bytes
file = b'/' ∷ b'a' ∷ []

abbrev names : List Bytes
names = (1 ∷ []) ∷ (2 ∷ 3 ∷ []) ∷ []

abbrev attr : Stat
attr = record blank_stat { st_ino = 7; st_size = 2 ^ 32 + 5; st_mode = 0o100644 }

getattr-exchange_example :
    Remote.getattr linux (exchange linux linux sample 1) file blank_stat []
    ≡ receive blank_stat (short_attr linux linux) (pos 0, attr, [])
getattr-exchange_example =
    Buffers.getattr-exchange linux linux sample 1 (omega arith) linux-HasLinuxErrnos [] file
      blank_stat (omega arith) (omega arith)

read-exchange_example :
    Remote.read linux (exchange linux linux sample 1) file 0 3 (replicate 4 7) []
    ≡ (pos 3, 10 ∷ 20 ∷ 30 ∷ 7 ∷ [], [])
read-exchange_example =
    Read.read-exchange linux linux sample 1 (omega arith) linux-HasLinuxErrnos file 0 3
      (replicate 4 7) [] (omega arith) (omega arith)
      (record { in_range = omega arith; same_size = refl; fits = λ e. omega arith })
