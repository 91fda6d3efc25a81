-- ===== src/ProviderMain.antt =====
-- The options of the provider program, and the start of it: src/provider_main.cpp. `getopt_long`, the
-- environment and the system are parameters. What is written to the terminal is left out.
pub mod Options
pub mod Run
pub mod Program
use webfuse.Base.{ℕ, List, [], ◌∷◌, Bool, true, false, ◌&&◌, Option, none, some, if◌then◌else◌}
use webfuse.Base.Text.{codes, c_string}
use webfuse.Message.Bytes.{Bytes}
use webfuse.Config.{is_missing}

pub data Command : Type 0 where
  run show_help show_version : Command

abbrev pub runs : Command → Bool
runs Command.run = true
runs Command.show_help = false
runs Command.show_version = false

-- `failed` is `exit_code != EXIT_SUCCESS`.
pub record Context : Type 0 where
  pub base_path : Bytes
  pub url : Bytes
  pub ca_path : Bytes
  pub token : Bytes
  pub cmd : Command
  pub failed : Bool

-- What `getopt_long` gives, with `optarg`, before its -1.
pub data Got : Type 0 where
  path url ca_path token : Bytes → Got
  help version unknown : Got

-- `WEBFUSE_TOKEN` is used if it is set.
unfoldable pub initial : Option Bytes → Context
initial webfuse_token = record {
  base_path = codes ".";
  url = [];
  ca_path = [];
  token = elim webfuse_token [ none ↦ [] | some text ↦ text ];
  cmd = Command.run;
  failed = false;
}

-- The loop: an unknown option ends it.
unfoldable pub get_options : List Got → Context → Context
get_options [] c = c
get_options (Got.path text ∷ rest) c = get_options rest (record c { base_path = text })
get_options (Got.url text ∷ rest) c = get_options rest (record c { url = text })
get_options (Got.ca_path text ∷ rest) c = get_options rest (record c { ca_path = text })
get_options (Got.token text ∷ rest) c = get_options rest (record c { token = text })
get_options (Got.help ∷ rest) c = get_options rest (record c { cmd = Command.show_help })
get_options (Got.version ∷ rest) c = get_options rest (record c { cmd = Command.show_version })
get_options (Got.unknown ∷ rest) c = record c { cmd = Command.show_help; failed = true }

unfoldable pub require_url : Context → Context
require_url c =
    if runs c.cmd && is_missing c.url
    then record c { cmd = Command.show_help; failed = true }
    else c

unfoldable pub new_context : Option Bytes → List Got → Context
new_context webfuse_token got = require_url (get_options got (initial webfuse_token))

-- `filesystem(base_path, token)`: the resolved path, if it is a directory. `realpath` gives a path or
-- nothing, and `is_directory` is `S_ISDIR` of what `stat` gives.
unfoldable pub resolve_base : (Bytes → Option Bytes) → (Bytes → Bool) → Bytes → Option Bytes
resolve_base realpath is_directory base_path = elim (realpath (c_string base_path)) [
  | none ↦ none
  | some resolved ↦ if is_directory resolved then some resolved else none
]
