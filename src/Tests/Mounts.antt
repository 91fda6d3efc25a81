-- ===== src/Tests/Mounts.antt =====
-- The mounted directory of the provider program, and the callbacks of FUSE, at concrete inputs.
use webfuse.Base.{◌-◌, ◌^◌, ◌≡◌, refl, List, [], ◌∷◌, ◌++◌, some, none, arith}
use webfuse.Base.Int.{to_i32, to_u32, pos}
use webfuse.Base.Text.{c_string}
use webfuse.Flags.FileMode
use webfuse.Message.Bytes.{Bytes}
use webfuse.Fs.{invalid_handle}
use webfuse.Fs.Lost
use webfuse.Fs.Lost.{unanswered}
use webfuse.Fs.Empty.{empty_filesystem}
use webfuse.Fs.Remote
use webfuse.Fs.Remote.{filesystem}
use webfuse.Rpc.Exchange.{exchange, arrive}
use webfuse.Rpc.Read.{receive_data}
use webfuse.Fuse
use webfuse.Fuse.{FileInfo, print_text, fs_readlink, fs_readdir, fs_create, fs_write}
use webfuse.Local
use webfuse.Local.{
  local, status_of, count_of, read_count, read_opened, write_to, descriptor, full_path,
  stored_target,
}
use webfuse.Local.Listing.{ended, entry}
use webfuse.Tests.Samples.{linux, sample, linux-HasLinuxErrnos, linux-HasFileModes}
use webfuse.Tests.Machine.{machine, machine-IsPosix}

abbrev base : Bytes
base = b'/' ∷ b'b' ∷ []

abbrev file : Bytes
file = b'/' ∷ b'a' ∷ []

abbrev info : FileInfo
info = record { flags = 1; fh = 0 }

-- A truncation without a handle becomes one of the descriptor -1.
truncate-mounted_example :
    Remote.truncate linux (exchange linux linux (local machine base []) 1) file 6 invalid_handle []
    ≡ arrive linux (status_of machine base [] (machine.ftruncate (descriptor (2 ^ 32 - 1)) 6 []))
truncate-mounted_example =
    Local.Mounted.truncate-mounted linux linux machine base [] machine-IsPosix 1 (omega arith) []
      file 6 invalid_handle (omega arith)

read-mounted_example :
    Remote.read linux (exchange linux linux (local machine base []) 1) file 3 9 (0 ∷ 0 ∷ []) []
    ≡ receive_data (0 ∷ 0 ∷ []) (pos 2, b'A' ∷ b'A' ∷ [], 5 ∷ 3 ∷ 0 ∷ [])
unfolding to_i32 to_u32
read-mounted_example =
    Local.Mounted.read-mounted linux linux machine base [] machine-IsPosix 1 (omega arith) [] file
      (0 ∷ 0 ∷ []) 3 9 linux-HasLinuxErrnos (omega arith) (omega arith)

abbrev collect : Bytes → List Bytes → List Bytes
collect name names = names ++ name ∷ []

fs_readdir-mounted_example :
    fs_readdir (filesystem linux (exchange linux linux sample 1)) file collect [] []
    ≡ (pos 0, (b'.' ∷ []) ∷ (b'.' ∷ b'.' ∷ []) ∷ (1 ∷ []) ∷ (2 ∷ 3 ∷ []) ∷ [], [])
unfolding Fuse.fill_names c_string
fs_readdir-mounted_example =
    Fuse.Mounted.fs_readdir-mounted linux linux sample 1 (omega arith) linux-HasLinuxErrnos [] file
      collect [] (omega arith) (omega arith) (omega arith, (omega arith, record {})) (omega arith)

fs_create-fs_write_example :
    (let mounted = filesystem linux (exchange linux linux (local machine base []) 1) in
      let (status, created, w) = fs_create mounted file 0o100644 info [] in
      fs_write mounted file (8 ∷ 9 ∷ []) 4 (some created) w)
    ≡ arrive linux (pos 2, 5 ∷ 4 ∷ FileMode.plain_mode 0o100644 ∷ [])
unfolding to_i32 to_u32
fs_create-fs_write_example =
    Fuse.Mounted.fs_create-fs_write linux linux machine base [] machine-IsPosix 1 (omega arith)
      linux-HasLinuxErrnos file (8 ∷ 9 ∷ []) 0o100644 4 info 5 []
      (FileMode.plain_mode 0o100644 ∷ []) (omega arith) (omega arith) linux-HasFileModes
      linux-HasFileModes (omega arith) refl

-- The absolute target /x is read back as /b/x.
symlink-readlink_example :
    (Local.symlink machine base [] (b'/' ∷ b'x' ∷ []) file [] ≡ (some (pos 0), 4 ∷ []))
    × (Local.readlink machine base [] file [] (4 ∷ [])
        ≡ (pos 0, b'/' ∷ b'b' ∷ b'/' ∷ b'x' ∷ [], 4 ∷ []))
unfolding full_path c_string
symlink-readlink_example =
    Local.Links.symlink-readlink machine base [] b'/' (b'x' ∷ []) file [] (0 ∷ []) [] (4 ∷ [])
      (4 ∷ []) (omega arith) (omega arith) refl refl

filesystem-unanswered_example :
    filesystem linux (unanswered {S = Bytes})
    ≡ record (empty_filesystem linux {S = Bytes}) { get_credentials = λ s. (none, s) }
filesystem-unanswered_example = Lost.filesystem-unanswered linux

readdir-IsListing_example :
    Local.readdir machine base [] file ((1 ∷ []) ∷ []) (7 ∷ 8 ∷ [])
    ≡ (pos 0, (1 ∷ []) ∷ (7 ∷ []) ∷ (8 ∷ []) ∷ [], [])
readdir-IsListing_example =
    Local.Listing.readdir-IsListing machine base [] file 3 ((1 ∷ []) ∷ [])
      ((7 ∷ []) ∷ (8 ∷ []) ∷ []) (7 ∷ 8 ∷ []) (7 ∷ 8 ∷ []) [] refl
      (entry refl (entry refl (ended refl))) (omega arith)
