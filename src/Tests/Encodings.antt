-- ===== src/Tests/Encodings.antt =====
-- Encodings and decodings at concrete inputs.
use webfuse.Base.{◌≡◌, [], ◌∷◌}
use webfuse.Flags.Platform.{OpenFlag}
use webfuse.Flags.OpenFlags
use webfuse.Flags.OpenFlags.RoundTrip.{union}
use webfuse.Tests.Samples.{linux, linux-HasLinuxOpenFlags}

to_int-from_int_example :
    OpenFlags.to_int linux
      (OpenFlags.from_int linux (union linux.open_flag (OpenFlag.rdwr ∷ OpenFlag.creat ∷ [])))
    ≡ union linux.open_flag (OpenFlag.rdwr ∷ OpenFlag.creat ∷ [])
to_int-from_int_example =
    OpenFlags.RoundTrip.to_int-from_int linux (OpenFlag.rdwr ∷ OpenFlag.creat ∷ [])
      linux-HasLinuxOpenFlags
