-- ===== src/Url.antt =====
-- `ws_url` of src/webfuse/ws/url.hpp and url.cpp: the URL of the service, as the provider parses it. An
-- exception is none.
pub mod Scheme
use webfuse.Base.{
  ℕ, ◌%◌, ◌^◌, ◌+◌, ◌<◌, ◌≡◌, ◌≢◌, refl, sym, List, [], ◌∷◌, ◌++◌, append_assoc, append-nil, Bool,
  true, false, Option, none, some, drop, if◌then◌else◌, arith,
}
use webfuse.Base.Int.{ℤ, pos, to_u32}
use webfuse.Base.Text.{
  codes, after_prefix, after_prefix-append, cut_at, cut_at-append, cut_at_missing, Lacks, stoi,
  stoi-spelled, spelled, IsDigits,
}
use webfuse.Message.Bytes.{Bytes}

pub record WsUrl : Type 0 where
  pub use_tls : Bool
  pub hostname : Bytes
  pub port : ℕ
  pub path : Bytes

abbrev ws_port : ℕ
ws_port = 80

abbrev wss_port : ℕ
wss_port = 443

-- The text behind the protocol, and `use_tls`.
unfoldable pub parse_protocol : Bytes → Option (Bytes × Bool)
parse_protocol url = elim (after_prefix (codes "ws://") url) [
  | some rest ↦ some (rest, false)
  | none ↦ elim (after_prefix (codes "wss://") url) [ some rest ↦ some (rest, true) | none ↦ none ]
]

-- The remainder before the path, and the path.
unfoldable pub split_path : Bytes → Bytes × Bytes
split_path remainder = elim (cut_at b'/' remainder) [
  | some (front, path) ↦ (front, path)
  | none ↦ (remainder, b'/' ∷ [])
]

-- `static_cast<uint16_t>`
abbrev pub to_u16 : ℤ → ℕ
to_u16 i = to_u32 i % 2 ^ 16

unfoldable pub parse_host : Bool → Bytes × Bytes → Option WsUrl
parse_host tls (remainder, path) = elim (cut_at b':' remainder) [
  | some (front, port_str) ↦ elim (stoi (drop 1 port_str)) [
    | some n ↦ some (record { use_tls = tls; hostname = front; port = to_u16 n; path = path })
    | none ↦ none
  ]
  | none ↦ some (record {
    use_tls = tls;
    hostname = remainder;
    port = if tls then wss_port else ws_port;
    path = path;
  })
]

unfoldable pub parse_url : Bytes → Option WsUrl
parse_url url = elim (parse_protocol url) [
  | none ↦ none
  | some (remainder, tls) ↦ parse_host tls (split_path remainder)
]

-- How a URL is written.
unfoldable pub scheme : Bool → Bytes
scheme true = codes "wss://"
scheme false = codes "ws://"

parse_protocol-scheme :
    (tls : Bool) (rest : Bytes) → parse_protocol (scheme tls ++ rest) ≡ some (rest, tls)
unfolding parse_protocol scheme after_prefix
parse_protocol-scheme true rest = refl
parse_protocol-scheme false rest = refl

Lacks-append : (sep : ℕ) (xs ys : Bytes) → Lacks sep xs → Lacks sep ys → Lacks sep (xs ++ ys)
Lacks-append sep [] ys hx hy = hy
Lacks-append sep (x ∷ xs) ys (h, hx) hy = (h, Lacks-append sep xs ys hx hy)

digits-Lacks : (s : Bytes) → IsDigits s → Lacks b'/' s
digits-Lacks [] h = record {}
digits-Lacks (c ∷ s) (h, hs) = (ground arith, digits-Lacks s hs)

module _ (tls : Bool) (hostname : Bytes) (no_slash : Lacks b'/' hostname)
    (no_colon : Lacks b':' hostname) where
  -- A URL of a scheme, a host without slash and colon, a port of at least one digit below 2 ^ 31
  -- and a path is parsed into these parts, the port modulo 2 ^ 16.
  pub parse_url-port :
      (port_digits path : Bytes)
      → port_digits ≢ []
      → IsDigits port_digits
      → spelled 0 port_digits < 2 ^ 31
      → parse_url (scheme tls ++ (hostname ++ b':' ∷ (port_digits ++ b'/' ∷ path)))
        ≡ some (record {
          use_tls = tls;
          hostname = hostname;
          port = spelled 0 port_digits % 2 ^ 16;
          path = b'/' ∷ path;
        })
  unfolding parse_url split_path parse_host to_u32
  parse_url-port port_digits path some_digits digits small =
      let authority : Bytes = hostname ++ b':' ∷ port_digits in
      let whole : hostname ++ b':' ∷ (port_digits ++ b'/' ∷ path) ≡ authority ++ b'/' ∷ path =
        sym (append_assoc hostname (b':' ∷ port_digits) (b'/' ∷ path)) in
      let clean : Lacks b'/' authority =
        Lacks-append b'/' hostname (b':' ∷ port_digits) no_slash
          (refl, digits-Lacks port_digits digits) in
      let number : to_u16 (pos (spelled 0 port_digits)) ≡ spelled 0 port_digits % 2 ^ 16 =
        omega arith in
      rw (whole, parse_protocol-scheme, parse_url)
        (rw (cut_at-append b'/' authority path clean, split_path)
          (rw (cut_at-append b':' hostname port_digits no_colon, parse_host)
            (rw (stoi-spelled port_digits some_digits digits small) (rw number refl))))

  pub parse_url-default :
      parse_url (scheme tls ++ hostname)
      ≡ some (record {
        use_tls = tls;
        hostname = hostname;
        port = if tls then 443 else 80;
        path = b'/' ∷ [];
      })
  unfolding parse_url split_path parse_host
  parse_url-default =
      rw (parse_protocol-scheme, parse_url)
        (rw (cut_at_missing b'/' hostname no_slash, split_path)
          (rw (cut_at_missing b':' hostname no_colon, parse_host) refl))
