-- ===== src/Config.antt =====
-- `ws_config` of src/webfuse/ws/config.hpp and config.cpp: the options of the service. An exception, of
-- `std::stoi` or of `commandline_args`, ends the program. What is written to `std::cerr` is left out.
pub mod Reference
pub mod Outcomes
pub mod Failures
use webfuse.Base.{
  ℕ, zero, suc, ◌+◌, ◌-◌, ◌%◌, ◌^◌, ◌≤◌, ◌<◌, List, [], ◌∷◌, ◌++◌, map, Bool, true, false, ◌&&◌,
  ◌||◌, Option, none, some, length, ltb, leb, ◌==◌, if◌then◌else◌,
}
use webfuse.Base.Int.{ℤ, pos, negsuc, to_u32}
use webfuse.Base.Text.{codes, same, stoi}
use webfuse.Message.Bytes.{Bytes}
use webfuse.Commandline.{
  CommandlineReader, CommandlineArgs, new_commandline_reader, next, current_arg, push,
  new_commandline_args,
}

pub data Command : Type 0 where
  run print_version show_help : Command

-- `failed` is `exit_code != EXIT_SUCCESS`.
pub record WsConfig : Type 0 where
  pub failed : Bool
  pub args : CommandlineArgs
  pub cmd : Command
  pub port : ℕ
  pub vhost_name : Bytes
  pub docroot : Bytes
  pub use_tls : Bool
  pub cert_path : Bytes
  pub key_path : Bytes
  pub authenticator : Bytes
  pub auth_header : Bytes
  pub timeout_secs : ℕ

unfoldable pub new_config : CommandlineArgs → WsConfig
new_config args = record {
  failed = false;
  args = args;
  cmd = Command.run;
  port = 8081;
  vhost_name = codes "localhost";
  docroot = [];
  use_tls = false;
  cert_path = [];
  key_path = [];
  authenticator = [];
  auth_header = [];
  timeout_secs = 10;
}

abbrev pub is_missing : Bytes → Bool
is_missing [] = true
is_missing (c ∷ s) = false

-- An error: the usage is shown, and the exit code is `EXIT_FAILURE`.
unfoldable pub fail : WsConfig → WsConfig
fail c = record c { cmd = Command.show_help; failed = true }

abbrev pub runs : Command → Bool
runs Command.run = true
runs Command.print_version = false
runs Command.show_help = false

unfoldable pub verify : WsConfig → WsConfig
verify c =
    if runs c.cmd && (c.use_tls && (is_missing c.key_path || is_missing c.cert_path))
    then fail c
    else c

-- The options that have a value, and all other arguments.
pub data Valued : Type 0 where
  port vhost key cert authenticator auth_header timeout docroot : Valued

pub data Argument : Type 0 where
  help version : Argument
  valued : Valued → Argument
  plain : Argument

-- The chain of comparisons.
unfoldable pub argument_of : Bytes → Argument
argument_of arg =
    if same arg (codes "-h") || same arg (codes "--help")
    then help
    else if same arg (codes "--wf-port")
    then valued Valued.port
    else if same arg (codes "--wf-vhost")
    then valued Valued.vhost
    else if same arg (codes "--wf-key")
    then valued Valued.key
    else if same arg (codes "--wf-cert")
    then valued Valued.cert
    else if same arg (codes "--wf-authenticator")
    then valued Valued.authenticator
    else if same arg (codes "--wf-auth-header")
    then valued Valued.auth_header
    else if same arg (codes "--wf-timeout")
    then valued Valued.timeout
    else if same arg (codes "--wf-docroot")
    then valued Valued.docroot
    else if same arg (codes "--wf-version")
    then version
    else plain

-- `std::tolower` in the C locale
unfoldable pub to_lower : ℕ → ℕ
to_lower c = if leb b'A' c && leb c b'Z' then c + 32 else c

-- `static_cast<uint64_t>` of an `int`
unfoldable pub to_u64 : ℤ → ℕ
to_u64 (pos n) = n
to_u64 (negsuc n) = 2 ^ 64 - 1 - n

unfoldable pub set_port : Option ℤ → WsConfig → Option WsConfig
set_port none c = none
set_port (some n) c = some (record c { port = to_u32 n % 2 ^ 16 })

unfoldable pub set_timeout : Option ℤ → WsConfig → Option WsConfig
set_timeout none c = none
set_timeout (some n) c = some (record c { timeout_secs = to_u64 n })

-- What an option does with its value.
unfoldable pub set_value : Valued → Bytes → WsConfig → Option WsConfig
set_value Valued.port value c = set_port (stoi value) c
set_value Valued.vhost value c = some (record c { vhost_name = value })
set_value Valued.key value c = some (record c { key_path = value; use_tls = true })
set_value Valued.cert value c = some (record c { cert_path = value; use_tls = true })
set_value Valued.authenticator value c = some (record c { authenticator = value })
set_value Valued.auth_header value c = some (record c { auth_header = map to_lower value })
set_value Valued.timeout value c = set_timeout (stoi value) c
set_value Valued.docroot value c = some (record c { docroot = value })

unfoldable pub push_arg : Bytes → WsConfig → Option WsConfig
push_arg arg c = elim (push arg c.args) [
  | none ↦ none
  | some args ↦ some (record c { args = args })
]

-- `get_arg` and what follows it: the value is the next argument, and without one the parse fails.
unfoldable pub take_value :
    Valued → Bool × CommandlineReader → WsConfig → Option (WsConfig × CommandlineReader)
take_value option (false, r) c = some (fail c, r)
take_value option (true, r) c = elim (set_value option (current_arg r) c) [
  | none ↦ none
  | some c' ↦ some (c', r)
]

unfoldable pub handle :
    Argument → CommandlineReader → WsConfig → Option (WsConfig × CommandlineReader)
handle help r c = some (record c { cmd = Command.show_help }, r)
handle version r c = some (record c { cmd = Command.print_version }, r)
handle (valued option) r c = take_value option (next r) c
handle plain r c = elim (push_arg (current_arg r) c) [ none ↦ none | some c' ↦ some (c', r) ]

-- How the constructor ends. `unfinished` means that the fuel of the model is spent.
pub data Outcome : Type 0 where
  parsed : WsConfig → Outcome
  thrown unfinished : Outcome

unfoldable pub parse_loop : ℕ → CommandlineReader → WsConfig → Outcome
parse_loop zero r c = unfinished
parse_loop (suc fuel) r c =
    let moved = next r in
    let after = handle (argument_of (current_arg moved.1)) moved.1 c in
    if c.failed
    then parsed c
    else if moved.0
    then elim after [ none ↦ thrown | some (c', r') ↦ parse_loop fuel r' c' ]
    else parsed c

abbrev pub finish : Outcome → Outcome
finish (parsed c) = parsed (verify c)
finish thrown = thrown
finish unfinished = unfinished

-- `ws_config(argc, argv)`, where `argv` has the name of the program first.
unfoldable pub parse_config : ℕ → List Bytes → Outcome
parse_config fuel [] = thrown
parse_config fuel (prog_name ∷ args) = elim (new_commandline_args prog_name (suc (length args))) [
  | none ↦ thrown
  | some collected ↦
      finish (parse_loop fuel (new_commandline_reader (prog_name ∷ args)) (new_config collected))
]
