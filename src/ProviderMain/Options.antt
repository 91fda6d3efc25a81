-- ===== src/ProviderMain/Options.antt =====
-- What the options of the provider program come to.
use webfuse.Base.{
  ◌≡◌, refl, ◌∙◌, ap, List, [], ◌∷◌, Bool, true, false, ◌&&◌, Option, none, some, Bool-cases, inl,
  inr,
}
use webfuse.Message.Bytes.{Bytes}
use webfuse.Config.{is_missing}
use webfuse.ProviderMain.{
  Command, runs, Context, Got, initial, get_options, require_url, new_context,
}

-- The argument of the last `--token`, or else `WEBFUSE_TOKEN`.
unfoldable pub last_token : Bytes → List Got → Bytes
last_token text [] = text
last_token text (Got.token new ∷ rest) = last_token new rest
last_token text (Got.unknown ∷ rest) = text
last_token text (_ ∷ rest) = last_token text rest

require_url-token : (c : Context) → (require_url c).token ≡ c.token
unfolding require_url
require_url-token c = elim (Bool-cases (runs c.cmd && is_missing c.url)) [
  | inl e ↦ rw (e) refl
  | inr e ↦ rw (e) refl
]

get_options-token :
    (got : List Got) (c : Context) → (get_options got c).token ≡ last_token c.token got
unfolding get_options last_token
get_options-token [] c = refl
get_options-token (Got.path text ∷ rest) c = get_options-token rest _
get_options-token (Got.url text ∷ rest) c = get_options-token rest _
get_options-token (Got.ca_path text ∷ rest) c = get_options-token rest _
get_options-token (Got.token text ∷ rest) c = get_options-token rest _
get_options-token (Got.help ∷ rest) c = get_options-token rest _
get_options-token (Got.version ∷ rest) c = get_options-token rest _
get_options-token (Got.unknown ∷ rest) c = refl

-- The token of the provider program is the argument of the last option `--token` before an
-- unknown option, and without one the value of `WEBFUSE_TOKEN`, or empty where that is not set.
pub new_context-token :
    (webfuse_token : Option Bytes) (got : List Got)
    → (new_context webfuse_token got).token
      ≡ last_token (elim webfuse_token [ none ↦ [] | some text ↦ text ]) got
unfolding new_context initial
new_context-token webfuse_token got = require_url-token _ ∙ get_options-token got _

-- An option that does not only set a text.
unfoldable pub stops : List Got → Bool
stops [] = false
stops (Got.help ∷ rest) = true
stops (Got.version ∷ rest) = true
stops (Got.unknown ∷ rest) = true
stops (_ ∷ rest) = stops rest

get_options-stopped :
    (got : List Got) (c : Context) → runs c.cmd ≡ false → runs (get_options got c).cmd ≡ false
unfolding get_options
get_options-stopped [] c h = h
get_options-stopped (Got.path text ∷ rest) c h = get_options-stopped rest _ h
get_options-stopped (Got.url text ∷ rest) c h = get_options-stopped rest _ h
get_options-stopped (Got.ca_path text ∷ rest) c h = get_options-stopped rest _ h
get_options-stopped (Got.token text ∷ rest) c h = get_options-stopped rest _ h
get_options-stopped (Got.help ∷ rest) c h = get_options-stopped rest _ refl
get_options-stopped (Got.version ∷ rest) c h = get_options-stopped rest _ refl
get_options-stopped (Got.unknown ∷ rest) c h = refl

get_options-runs :
    (got : List Got) (c : Context) → runs (get_options got c).cmd ≡ true → stops got ≡ false
unfolding get_options stops
get_options-runs [] c h = refl
get_options-runs (Got.path text ∷ rest) c h = get_options-runs rest _ h
get_options-runs (Got.url text ∷ rest) c h = get_options-runs rest _ h
get_options-runs (Got.ca_path text ∷ rest) c h = get_options-runs rest _ h
get_options-runs (Got.token text ∷ rest) c h = get_options-runs rest _ h
get_options-runs (Got.help ∷ rest) c h =
    cc (h, get_options-stopped rest (record c { cmd = Command.show_help }) refl)
get_options-runs (Got.version ∷ rest) c h =
    cc (h, get_options-stopped rest (record c { cmd = Command.show_version }) refl)
get_options-runs (Got.unknown ∷ rest) c h = cc (h)

require_url-runs :
    (c : Context)
    → runs (require_url c).cmd ≡ true
    → (runs c.cmd ≡ true) × (is_missing c.url ≡ false) × (require_url c ≡ c)
unfolding require_url
require_url-runs c h = elim (Bool-cases (runs c.cmd)) [
  | inr e ↦ cc (rw (e) at h, e)
  | inl e ↦ elim (Bool-cases (is_missing c.url)) [
    | inl e1 ↦ cc (rw (e, e1) at h)
    | inr e1 ↦ (e, e1, rw (e, e1) refl)
  ]
]

pub new_context-runs :
    (webfuse_token : Option Bytes) (got : List Got)
    → runs (new_context webfuse_token got).cmd ≡ true
    → (stops got ≡ false) × (is_missing (new_context webfuse_token got).url ≡ false)
unfolding new_context
new_context-runs webfuse_token got h =
    let (still, some_url, same) = require_url-runs _ h in
    (get_options-runs got _ still, ap (λ (c : Context). is_missing c.url) same ∙ some_url)
