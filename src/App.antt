-- ===== src/App.antt =====
-- `app::run` of src/webfuse/webfuse.cpp. Making the server and the file system and `fuse::run` is a
-- parameter, on a state `W`; what is written to the terminal is left out.
use webfuse.Base.{ℕ, List, if◌then◌else◌}
use webfuse.Base.Int.{ℤ, pos}
use webfuse.Message.Bytes.{Bytes}
use webfuse.Config.{Command, WsConfig, parsed, thrown, unfinished, parse_config}

-- How the program ends: with an exit code or an exception. `unfinished` means that the fuel is spent.
pub data Ended (W : Type 0) : Type 0 where
  exits : ℤ → W → Ended W
  throws : Ended W
  unended : Ended W

-- `EXIT_FAILURE` or `EXIT_SUCCESS`
abbrev pub exit_code : WsConfig → ℤ
exit_code c = if c.failed then pos 1 else pos 0

module _ {W : Type 0} (fuse_run : WsConfig → W → ℤ × W) where
  unfoldable pub run_command : WsConfig → W → Ended W
  run_command c w = elim (c.cmd) [
    | Command.run ↦ let (code, w') = fuse_run c w in exits code w'
    | Command.print_version ↦ exits (exit_code c) w
    | Command.show_help ↦ exits (exit_code c) w
  ]

  unfoldable pub run_app : ℕ → List Bytes → W → Ended W
  run_app fuel argv w = elim (parse_config fuel argv) [
    | parsed c ↦ run_command c w
    | thrown ↦ throws
    | unfinished ↦ unended
  ]
