-- ===== src/Url/Scheme.antt =====
-- Which texts are accepted as a URL, and whether the connection is encrypted.
use mathlib.Core.Option.{some-injective}
use webfuse.Base.{
  ◌≡◌, ap, sym, ◌∙◌, [], ◌∷◌, ◌++◌, Bool, some, Option-cases, inl, inr, ◌==◌, ==_iff, Bool-cases,
  arith,
}
use webfuse.Base.Text.{codes, after_prefix}
use webfuse.Message.Bytes.{Bytes}
use webfuse.Url.{WsUrl, parse_protocol, parse_host, split_path, parse_url, scheme}

after_prefix_sound :
    (prefix value rest : Bytes) → after_prefix prefix value ≡ some rest → value ≡ prefix ++ rest
unfolding after_prefix
after_prefix_sound [] value rest e = cc
after_prefix_sound (p ∷ prefix) [] rest e = cc
after_prefix_sound (p ∷ prefix) (c ∷ value) rest e = elim (Bool-cases (c == p)) [
  | inl h ↦
      let same : c ≡ p = (==_iff c p).0 h in
      let tail = after_prefix_sound prefix value rest (rw (h) at e) in cc (same, tail)
  | inr h ↦ cc (rw (h) at e)
]

-- A protocol, and the text behind it.
abbrev written : Bytes × Bool → Bytes
written (rest, tls) = scheme tls ++ rest

parse_protocol_sound :
    (url rest : Bytes) (tls : Bool)
    → parse_protocol url ≡ some (rest, tls)
    → url ≡ scheme tls ++ rest
unfolding parse_protocol scheme
parse_protocol_sound url rest tls e = elim (Option-cases (after_prefix (codes "ws://") url)) [
  | inr (r, h) ↦
      after_prefix_sound (codes "ws://") url r h
      ∙ ap written (some-injective _ _ (rw (h, parse_protocol) at e))
  | inl h ↦ elim (Option-cases (after_prefix (codes "wss://") url)) [
    | inr (r, h1) ↦
        after_prefix_sound (codes "wss://") url r h1
        ∙ ap written (some-injective _ _ (rw (h, parse_protocol, h1) at e))
    | inl h1 ↦ cc (rw (h, parse_protocol, h1) at e)
  ]
]

parse_host-use_tls :
    (tls : Bool) (parts : Bytes × Bytes) (u : WsUrl)
    → parse_host tls parts ≡ some u
    → u.use_tls ≡ tls
unfolding parse_host
parse_host-use_tls tls (remainder, path) u e = ground arith

pub parse_url-scheme :
    (url : Bytes) (u : WsUrl)
    → parse_url url ≡ some u
    → (rest : Bytes) × (url ≡ scheme u.use_tls ++ rest)
unfolding parse_url
parse_url-scheme url u e = elim (Option-cases (parse_protocol url)) [
  | inl h ↦ cc (rw (h, parse_url) at e)
  | inr ((rest, tls), h) ↦ (
    rest,
    parse_protocol_sound url rest tls h
        ∙ ap (λ tls. scheme tls ++ rest)
            (sym (parse_host-use_tls tls (split_path rest) u (rw (h, parse_url) at e))),
  )
]
