-- ===== src/Pam/Laws.antt =====
-- The example authenticator: what it answers PAM, whom it lets in, and that it leaves nothing open.
use webfuse.Base.{
  ℕ, suc, ◌+◌, ◌≡◌, refl, ◌∙◌, ap, List, [], ◌∷◌, ◌++◌, map, Bool, true, false, Option, none, some,
  if◌then◌else◌, arith,
}
use webfuse.Base.Text.{c_string, Lacks, cut_at-append}
use webfuse.Message.Bytes.{Bytes}
use webfuse.Pam.{
  Credentials, Style, Conversation, Pam, decode, also, respond, conversation, authenticate,
  and_then, check_user, first_line, run_main,
}

-- The response to a message of a known style.
unfoldable pub answer : Credentials → Style → Option Bytes
answer creds Style.prompt_echo_on = some (c_string creds.username)
answer creds Style.prompt_echo_off = some (c_string creds.password)
answer creds _ = none

unfoldable pub all_known : List Style → Bool
all_known [] = true
all_known (Style.other ∷ messages) = false
all_known (_ ∷ messages) = all_known messages

also-answer :
    (known : Bool) (response : Option Bytes) (responses : List (Option Bytes))
    → also response (if known then some responses else none)
      ≡ (if known then some (response ∷ responses) else none)
also-answer true response responses = refl
also-answer false response responses = refl

respond-answer :
    (creds : Credentials) (messages : List Style)
    → respond creds messages
      ≡ (if all_known messages then some (map (answer creds) messages) else none)
unfolding respond answer all_known
respond-answer creds [] = refl
respond-answer creds (Style.prompt_echo_on ∷ messages) =
    rw (respond-answer creds messages) (also-answer _ _ _)
respond-answer creds (Style.prompt_echo_off ∷ messages) =
    rw (respond-answer creds messages) (also-answer _ _ _)
respond-answer creds (Style.text_info ∷ messages) =
    rw (respond-answer creds messages) (also-answer _ _ _)
respond-answer creds (Style.error_msg ∷ messages) =
    rw (respond-answer creds messages) (also-answer _ _ _)
respond-answer creds (Style.other ∷ messages) = refl

pub conversation-answer :
    (creds : Credentials) (message : Style) (messages : List Style)
    → conversation creds (message ∷ messages) ≡ (
        if all_known (message ∷ messages)
        then some (map (answer creds) (message ∷ messages))
        else none)
unfolding conversation
conversation-answer creds message messages = respond-answer creds (message ∷ messages)

first_line-append : (line rest : Bytes) → Lacks 10 line → first_line (line ++ 10 ∷ rest) ≡ line
unfolding first_line
first_line-append [] rest h = refl
first_line-append (c ∷ line) rest (h, hs) =
    rw (h) (ap (λ rest. c ∷ rest) (first_line-append line rest hs))

-- The example authenticator takes a line that is base64 of a user name without colon, a colon and
-- a password, and its verdict is that of PAM on this name and this password.
pub run_main-authenticate :
    {W : Type 0} (pam : Pam W) (b64 : Bytes → Bytes) (token rest username password : Bytes) (w : W)
    → Lacks 10 token
    → Lacks b':' username
    → b64 token ≡ username ++ b':' ∷ password
    → run_main pam b64 1 (token ++ 10 ∷ rest) w ≡ authenticate pam username password w
unfolding run_main decode
run_main-authenticate pam b64 token rest username password w line user e =
    rw
      (
        first_line-append token rest line,
        decode,
        e,
        cut_at-append b':' username password user,
        run_main,
      )
      refl

-- Of the manual pages of PAM: `pam_start` opens a session if it succeeds, and `pam_end` closes one.
pub record IsPam {W : Type 0} (pam : Pam W) (sessions : W → ℕ) : Type 0 where
  pub opens :
      (name : Bytes) (conv : Conversation) (w : W)
      → sessions (pam.pam_start name conv w).1
        ≡ sessions w + (if (pam.pam_start name conv w).0 then 1 else 0)
  pub set_user_keeps : (user : Bytes) (w : W) → sessions (pam.pam_set_user user w) ≡ sessions w
  pub authenticate_keeps : (w : W) → sessions (pam.pam_authenticate w).1 ≡ sessions w
  pub acct_mgmt_keeps : (w : W) → sessions (pam.pam_acct_mgmt w).1 ≡ sessions w
  pub closes : (w : W) (n : ℕ) → sessions w ≡ suc n → sessions (pam.pam_end w) ≡ n

module _ {W : Type 0} (pam : Pam W) (sessions : W → ℕ) (known : IsPam pam sessions) where
  and_then_keeps :
      (next : W → Bool × W) (out : Bool × W)
      → ((w : W) → sessions (next w).1 ≡ sessions w)
      → sessions (and_then out next).1 ≡ sessions out.1
  unfolding and_then
  and_then_keeps next (true, w) keeps = keeps w
  and_then_keeps next (false, w) keeps = refl

  check_user-sessions :
      (username : Bytes) (w : W) (n : ℕ)
      → sessions w ≡ suc n
      → sessions (check_user pam username w).1 ≡ n
  unfolding check_user
  check_user-sessions username w n e =
      let user : Bytes = c_string username in
      known.closes _ n (
        and_then_keeps pam.pam_acct_mgmt (pam.pam_authenticate (pam.pam_set_user user w))
          known.acct_mgmt_keeps
        ∙ known.authenticate_keeps (pam.pam_set_user user w)
        ∙ known.set_user_keeps user w
        ∙ e)

  after_start :
      (username : Bytes) (out : Bool × W) (n : ℕ)
      → sessions out.1 ≡ n + (if out.0 then 1 else 0)
      → sessions (and_then out (check_user pam username)).1 ≡ n
  unfolding and_then
  after_start username (true, w) n e = check_user-sessions username w n (omega (arith, e))
  after_start username (false, w) n e = omega (arith, e)

  -- A check of a password closes the session of PAM that it opened, whatever PAM answers, if
  -- `pam_start` and `pam_end` do as documented.
  pub authenticate-sessions :
      (username password : Bytes) (w : W)
      → sessions (authenticate pam username password w).1 ≡ sessions w
  unfolding authenticate
  authenticate-sessions username password w =
      after_start username _ (sessions w) (known.opens _ _ w)
