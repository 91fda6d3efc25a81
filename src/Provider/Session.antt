-- ===== src/Provider/Session.antt =====
-- The object `provider` of src/webfuse/provider.cpp: its file system and its client, to which it passes on.
use mathlib.Core.Option.{some-injective}
use webfuse.Base.{
  ℕ, ◌≡◌, refl, sym, ap, List, [], ◌∷◌, ◌++◌, true, false, Option, none, some, Option-cases, inl,
  inr,
}
use webfuse.Base.Text.{codes, c_string}
use webfuse.Flags.Platform.{Platform}
use webfuse.Message.Bytes.{Bytes}
use webfuse.Fs.{FilesystemI}
use webfuse.Config.{is_missing}
use webfuse.Provider.{on_message}
use webfuse.Client.{UserData, Effect, Reason, run_client}
use webfuse.Client.Connect
use webfuse.Client.Connect.{ConnectInfo, connect-encrypted}
use webfuse.Client.Setup
use webfuse.Client.Setup.{
  ContextInfo, LwsCall, create_context, create_vhost, init_vhost_client_ssl,
  client_connect_via_info, service, cancel_service, context_destroy, context_info, ssl_info,
  new_detail,
}

pub record Session (S : Type 0) : Type 0 where
  pub user_data : UserData
  pub state : S

-- `client.interrupt()`, and what the destructor of the client does.
unfoldable pub interrupt : List LwsCall
interrupt = cancel_service ∷ []

unfoldable pub close : List LwsCall
close = context_destroy ∷ []

module _ (q : Platform) {S : Type 0} (fs : FilesystemI S) where
  -- The handler of the client is `on_message`, on the file system of the provider.
  unfoldable pub construct : Bytes → S → List LwsCall × Session S
  construct ca_path state =
      let (calls, user_data) = new_detail ca_path in
      (calls, record { user_data = user_data; state = state })

  unfoldable pub connect : Bytes → Session S → Option (List LwsCall × Session S)
  connect url session = elim (Setup.connect url) [
    | none ↦ none
    | some calls ↦ some (calls, session)
  ]

  -- The callbacks that come while `lws_service` runs.
  unfoldable pub serve : ℕ → List Reason → Session S → (List LwsCall × List Effect) × Session S
  serve wsi reasons session =
      let ((effects, user_data), state) =
        run_client q (on_message q fs) wsi reasons session.user_data session.state in
      ((service ∷ [], effects), record { user_data = user_data; state = state })

  -- A provider that is made and connects.
  abbrev pub start : Bytes → Bytes → S → Option (List LwsCall × Session S)
  start ca_path url state =
      let made = construct ca_path state in
      elim (connect url made.1) [
        | none ↦ none
        | some (calls, session) ↦ some (made.0 ++ calls, session)
      ]

module _ (q : Platform) {S : Type 0} (fs : FilesystemI S) where
  -- If a provider is made with a path of certificates and connects to a URL that starts with
  -- `wss://` without an exception, then libwebsockets is asked for exactly a context, a vhost,
  -- the initialisation of its client TLS with this path, up to its first zero, and with the
  -- global initialisation, and a connection that uses TLS, in this order.
  pub start-encrypted :
      (ca_path rest : Bytes) (state : S) (calls : List LwsCall) (session : Session S)
      → is_missing ca_path ≡ false
      → start q fs ca_path (codes "wss://" ++ rest) state ≡ some (calls, session)
      → (ssl : ContextInfo) × (info : ConnectInfo) × (calls
          ≡ create_context context_info
            ∷ create_vhost context_info
            ∷ init_vhost_client_ssl ssl
            ∷ client_connect_via_info info
            ∷ [])
        × (ssl.do_ssl_global_init ≡ true)
        × (ssl.client_ssl_ca_filepath ≡ some (c_string ca_path))
        × (info.ssl_connection ≡ true)
  unfolding construct connect Setup.connect new_detail ssl_info
  start-encrypted ca_path rest state calls session given e =
      elim (Option-cases (Connect.connect (codes "wss://" ++ rest))) [
        | inl h ↦ absurd (cc (rw (h, start, construct, connect, Setup.connect) at e))
        | inr (info, h) ↦
            let done = some-injective _ _ (rw (h, start, construct, connect, Setup.connect) at e) in
            (
              ssl_info ca_path,
              info,
              ap (λ (out : List LwsCall × Session S). out.0) (sym done),
              rw (given) refl,
              rw (given) refl,
              connect-encrypted rest info h,
            )
      ]
