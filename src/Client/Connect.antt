-- ===== src/Client/Connect.antt =====
-- `ws_client::detail::connect` of src/webfuse/ws/client.cpp: what libwebsockets is asked to connect to.
use mathlib.Core.Option.{some-injective}
use webfuse.Base.{
  ℕ, ◌≡◌, refl, ap, sym, ◌∙◌, ◌∷◌, ◌++◌, Bool, true, false, Option, none, some, Option-cases, inl,
  inr, arith,
}
use webfuse.Base.Text.{codes, c_string}
use webfuse.Message.Bytes.{Bytes}
use webfuse.Url.{WsUrl, parse_url, scheme}
use webfuse.Url.Scheme.{parse_url-scheme}

-- `lws_client_connect_info`; `ssl_connection` is whether it is `LCCSCF_USE_SSL`, and not 0.
pub record ConnectInfo : Type 0 where
  pub port : ℕ
  pub address : Bytes
  pub host : Bytes
  pub path : Bytes
  pub origin : Bytes
  pub ssl_connection : Bool
  pub protocol : Bytes
  pub local_protocol_name : Bytes

unfoldable pub connect_info : WsUrl → ConnectInfo
connect_info parsed_url = record {
  port = parsed_url.port;
  address = c_string parsed_url.hostname;
  host = c_string parsed_url.hostname;
  path = c_string parsed_url.path;
  origin = c_string parsed_url.hostname;
  ssl_connection = parsed_url.use_tls;
  protocol = codes "webfuse2";
  local_protocol_name = codes "webfuse2-client";
}

-- An exception of `ws_url` is none.
unfoldable pub connect : Bytes → Option ConnectInfo
connect url = elim (parse_url url) [
  | none ↦ none
  | some parsed_url ↦ some (connect_info parsed_url)
]

abbrev third_byte : Bytes → ℕ
third_byte (a ∷ b ∷ c ∷ rest) = c
third_byte _ = 0

scheme_secure :
    (tls : Bool) (rest r : Bytes) → codes "wss://" ++ rest ≡ scheme tls ++ r → tls ≡ true
unfolding scheme
scheme_secure true rest r e = refl
scheme_secure false rest r e =
    let differ : ◌≡◌ {A = ℕ} 115 58 = ap third_byte e in absurd (omega (arith, differ))

-- If a provider connects to a URL that starts with `wss://`, the connection uses TLS.
pub connect-encrypted :
    (rest : Bytes) (info : ConnectInfo)
    → connect (codes "wss://" ++ rest) ≡ some info
    → info.ssl_connection ≡ true
unfolding connect connect_info scheme
connect-encrypted rest info e = elim (Option-cases (parse_url (codes "wss://" ++ rest))) [
  | inl h ↦ cc (rw (h, connect) at e)
  | inr (u, h) ↦
      let (r, written) = parse_url-scheme _ u h in
      let secure : u.use_tls ≡ true = scheme_secure u.use_tls rest r written in
      let same : connect_info u ≡ info = some-injective _ _ (rw (h, connect) at e) in
      ap (λ (info : ConnectInfo). info.ssl_connection) (sym same) ∙ secure
]
