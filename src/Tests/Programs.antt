-- ===== src/Tests/Programs.antt =====
-- The command lines, the URL and the authenticators, at concrete inputs.
use webfuse.Base.{ℕ, suc, ◌≡◌, ◌⊎◌, refl, List, [], ◌∷◌, true, false, none, some, arith}
use webfuse.Base.Int.{ℤ, pos}
use webfuse.Base.Text
use webfuse.Base.Text.{c_string, codes, spelled, stoi}
use webfuse.Message.Bytes.{Bytes}
use webfuse.Config
use webfuse.Config.{WsConfig, parsed, thrown, parse_config, runs, is_missing, new_config}
use webfuse.Config.Reference
use webfuse.Config.Reference.{interpret}
use webfuse.Config.Outcomes
use webfuse.Config.Outcomes.{HasBadNumber}
use webfuse.App
use webfuse.Url
use webfuse.Url.{parse_url, scheme}
use webfuse.Client.Connect.{ConnectInfo, connect, connect_info}
use webfuse.Client.{new_user_data}
use webfuse.Client.Setup
use webfuse.Client.Setup.{
  ContextInfo, create_context, create_vhost, init_vhost_client_ssl, client_connect_via_info,
  context_info, ssl_info, new_detail,
}
use webfuse.Provider.Session
use webfuse.Provider.Session.{start}
use webfuse.Tests.Samples.{linux, sample}
use webfuse.ProviderMain.{Got, new_context}
use webfuse.ProviderMain.Options
use webfuse.ProviderMain.Options.{last_token, stops}

abbrev name : Bytes
name = codes "webfuse"

-- The mount point is kept for FUSE.
abbrev args : List Bytes
args = codes "--wf-port" ∷ codes "80" ∷ codes "/mnt" ∷ []

parse_config_ends_example :
    ((c : WsConfig) × (parse_config 4 (name ∷ args) ≡ parsed c))
    ⊎ ((parse_config 4 (name ∷ args) ≡ thrown) × HasBadNumber args)
parse_config_ends_example = Outcomes.parse_config_ends name args

parse_config-interpret_example :
    parse_config 9 (name ∷ args)
    ≡ Config.finish (interpret args none (new_config (record { capacity = 4; argv = name ∷ [] })))
parse_config-interpret_example = Reference.parse_config-interpret 9 name args (omega arith)

abbrev tls_args : List Bytes
tls_args = codes "--wf-key" ∷ codes "k" ∷ codes "--wf-cert" ∷ codes "c" ∷ []

abbrev tls_config : WsConfig
tls_config = record (new_config (record { capacity = 5; argv = name ∷ [] })) {
  use_tls = true;
  key_path = codes "k";
  cert_path = codes "c";
}

tls_parsed : parse_config 9 (name ∷ tls_args) ≡ parsed tls_config
unfolding new_config interpret Config.argument_of Config.set_value Config.verify Text.same
tls_parsed = Reference.parse_config-interpret 9 name tls_args (omega arith)

parse_config_keys_example :
    (is_missing tls_config.key_path ≡ false) × (is_missing tls_config.cert_path ≡ false)
unfolding new_config
parse_config_keys_example =
    Outcomes.parse_config_keys 9 name tls_args tls_config (omega arith) tls_parsed refl refl

-- An option without its value.
abbrev bad_args : List Bytes
bad_args = codes "--wf-port" ∷ []

abbrev mounts : WsConfig → ℕ → ℤ × ℕ
mounts c n = (pos 0, suc n)

parse_url-port_example :
    parse_url (codes "wss://host:8443/p")
    ≡ some (record { use_tls = true; hostname = codes "host"; port = 8443; path = codes "/p" })
unfolding scheme spelled
parse_url-port_example =
    Url.parse_url-port true (codes "host") (refl, (refl, (refl, (refl, record {}))))
      (refl, (refl, (refl, (refl, record {})))) (codes "8443") (codes "p") (λ e. cc e)
      (
        (omega arith, omega arith),
        (
          (omega arith, omega arith),
          ((omega arith, omega arith), ((omega arith, omega arith), record {})),
        ),
      )
      (omega arith)

abbrev secure : ConnectInfo
secure =
    connect_info (record { use_tls = true; hostname = codes "host"; port = 443; path = codes "/" })

connected : connect (codes "wss://host") ≡ some secure
unfolding connect scheme parse_url Url.parse_protocol Text.after_prefix Url.parse_host Text.cut_at
    Url.split_path
connected = refl

started :
    start linux sample (codes "/ca") (codes "wss://host") []
    ≡ some (
      create_context context_info
          ∷ create_vhost context_info
          ∷ init_vhost_client_ssl (ssl_info (codes "/ca"))
          ∷ client_connect_via_info secure
          ∷ [],
      record { user_data = new_user_data; state = [] },
    )
unfolding Session.construct Session.connect Setup.connect new_detail
started = rw (connected, start, Session.construct, Session.connect, Setup.connect) refl

start-encrypted_example :
    (ssl : ContextInfo) × (info : ConnectInfo) × (create_context context_info
        ∷ create_vhost context_info
        ∷ init_vhost_client_ssl (ssl_info (codes "/ca"))
        ∷ client_connect_via_info secure
        ∷ []
      ≡ create_context context_info
        ∷ create_vhost context_info
        ∷ init_vhost_client_ssl ssl
        ∷ client_connect_via_info info
        ∷ [])
    × (ssl.do_ssl_global_init ≡ true)
    × (ssl.client_ssl_ca_filepath ≡ some (c_string (codes "/ca")))
    × (info.ssl_connection ≡ true)
start-encrypted_example =
    Session.start-encrypted linux sample (codes "/ca") (codes "host") [] _ _ refl started

new_context-token_example :
    (new_context (some (codes "t1")) (Got.url (codes "ws://h") ∷ Got.token (codes "t2") ∷ [])).token
    ≡ codes "t2"
unfolding last_token
new_context-token_example =
    Options.new_context-token (some (codes "t1"))
      (Got.url (codes "ws://h") ∷ Got.token (codes "t2") ∷ [])
