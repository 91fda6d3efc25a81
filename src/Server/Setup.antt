-- ===== src/Server/Setup.antt =====
-- The set-up of `ws_server::detail` in src/webfuse/ws/server.cpp: what libwebsockets is asked for.
use webfuse.Base.{
  ℕ, ◌<◌, ◌≡◌, ◌⊎◌, refl, List, [], ◌∷◌, Bool, true, false, not, Option, none, some, Bool-cases,
  inl, inr, length, if◌then◌else◌,
}
use webfuse.Base.Text.{codes, c_string}
use webfuse.Message.Bytes.{Bytes}
use webfuse.Config.{WsConfig, runs, is_missing, parsed, parse_config}
use webfuse.Config.Outcomes.{parse_config_keys}
use webfuse.Server.{ServerHandler, new_handler}

-- `lws_context_creation_info`, as far as the options decide: `serves_files` is whether the protocol `http`
-- is there too, and `ssl` has the paths of the certificate and of the key.
pub record ServerInfo : Type 0 where
  pub port : ℕ
  pub vhost_name : Bytes
  pub mountpoint : Bytes
  pub origin : Bytes
  pub default_file : Bytes
  pub serves_files : Bool
  pub ssl : Option (Bytes × Bytes)

unfoldable pub server_info : WsConfig → ServerInfo
server_info config = record {
  port = config.port;
  vhost_name = c_string config.vhost_name;
  mountpoint = codes "/";
  origin = c_string config.docroot;
  default_file = codes "index.html";
  serves_files = not (is_missing config.docroot);
  ssl = if config.use_tls then some (c_string config.cert_path, c_string config.key_path) else none;
}

-- The handler that `ws_server` starts with.
unfoldable pub data_of : WsConfig → ServerHandler
data_of config = new_handler config.authenticator config.auth_header

-- What the constructor, less the level of the log, and the destructor of `detail` ask for.
pub data Request : Type 0 where
  create_context create_vhost : ServerInfo → Request
  start_thread request_shutdown cancel_service join_thread context_destroy : Request

unfoldable pub new_detail : WsConfig → List Request × ServerHandler
new_detail config = (
  create_context (server_info config) ∷ create_vhost (server_info config) ∷ start_thread ∷ [],
  data_of config,
)

-- The thread has ended when the context that it serves is destroyed.
unfoldable pub close : List Request
close = request_shutdown ∷ cancel_service ∷ join_thread ∷ context_destroy ∷ []

-- A service that runs with TLS has both paths.
pub server_info-ssl :
    (fuel : ℕ) (prog_name : Bytes) (args : List Bytes) (c : WsConfig)
    → length args < fuel
    → parse_config fuel (prog_name ∷ args) ≡ parsed c
    → runs c.cmd ≡ true
    → ((server_info c).ssl ≡ none)
      ⊎ (((server_info c).ssl ≡ some (c_string c.cert_path, c_string c.key_path))
          × ((is_missing c.key_path ≡ false) × (is_missing c.cert_path ≡ false)))
unfolding server_info
server_info-ssl fuel prog_name args c enough e running = elim (Bool-cases (c.use_tls)) [
  | inr h ↦ inl (rw (h) refl)
  | inl h ↦ inr (rw (h) refl, parse_config_keys fuel prog_name args c enough e running h)
]
