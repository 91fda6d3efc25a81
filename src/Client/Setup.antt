-- ===== src/Client/Setup.antt =====
-- `ws_client::detail` of src/webfuse/ws/client.cpp: what libwebsockets is asked for when the client is set
-- up, and the calls that only pass to it.
use webfuse.Base.{ℕ, List, [], ◌∷◌, Bool, true, false, Option, none, some, if◌then◌else◌}
use webfuse.Base.Int.{ℤ, neg}
use webfuse.Base.Text.{codes, c_string}
use webfuse.Message.Bytes.{Bytes}
use webfuse.Config.{is_missing}
use webfuse.Client.{UserData, new_user_data}
use webfuse.Client.Connect
use webfuse.Client.Connect.{ConnectInfo}

-- `lws_context_creation_info`, as far as it is set: no port is `CONTEXT_PORT_NO_LISTEN`, the options are
-- whether each is set, and no path is `nullptr`.
pub record ContextInfo : Type 0 where
  pub port : Option ℕ
  pub protocol : Bytes
  pub uid : ℤ
  pub gid : ℤ
  pub explicit_vhosts : Bool
  pub do_ssl_global_init : Bool
  pub client_ssl_ca_filepath : Option Bytes

-- The calls of libwebsockets, less the one for the level of the log.
pub data LwsCall : Type 0 where
  create_context create_vhost init_vhost_client_ssl : ContextInfo → LwsCall
  client_connect_via_info : ConnectInfo → LwsCall
  service cancel_service context_destroy : LwsCall

unfoldable pub context_info : ContextInfo
context_info = record {
  port = none;
  protocol = codes "webfuse2-client";
  uid = neg 1;
  gid = neg 1;
  explicit_vhosts = true;
  do_ssl_global_init = false;
  client_ssl_ca_filepath = none;
}

-- What `info` has become when TLS is initialised.
unfoldable pub ssl_info : Bytes → ContextInfo
ssl_info ca_path =
    let info = record context_info { do_ssl_global_init = true } in
    if is_missing ca_path
    then info
    else record info { client_ssl_ca_filepath = some (c_string ca_path) }

unfoldable pub new_detail : Bytes → List LwsCall × UserData
new_detail ca_path = (
  create_context context_info
      ∷ create_vhost context_info
      ∷ init_vhost_client_ssl (ssl_info ca_path)
      ∷ [],
  new_user_data,
)

-- `detail::connect`; an exception is none.
unfoldable pub connect : Bytes → Option (List LwsCall)
connect url = elim (Connect.connect url) [
  | none ↦ none
  | some info ↦ some (client_connect_via_info info ∷ [])
]
