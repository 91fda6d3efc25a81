-- ===== src/Pam.antt =====
-- The example authenticator: example/authenticator/pam/src/main.cpp. A password is checked by PAM. The
-- libraries PAM and libb64 are parameters.
pub mod Laws
use webfuse.Base.{
  ℕ, List, [], ◌∷◌, Bool, true, false, Option, none, some, map, drop, ◌==◌, if◌then◌else◌,
}
use webfuse.Base.Text.{codes, c_string, cut_at}
use webfuse.Message.Bytes.{Bytes}

pub record Credentials : Type 0 where
  pub username : Bytes
  pub password : Bytes

-- `msg_style`, with all other numbers as one
pub data Style : Type 0 where
  prompt_echo_on : Style
  prompt_echo_off : Style
  text_info : Style
  error_msg : Style
  other : Style

-- The responses of a conversation: a null pointer is none, and `PAM_CONV_ERR` is none.
abbrev pub Conversation : Type 0
Conversation = List Style → Option (List (Option Bytes))

-- The calls of PAM on its state, which has the handle. A result is whether it is `PAM_SUCCESS`.
pub record Pam (W : Type 0) : Type 0 where
  pub pam_start : Bytes → Conversation → W → Bool × W
  pub pam_set_user : Bytes → W → W
  pub pam_authenticate : W → Bool × W
  pub pam_acct_mgmt : W → Bool × W
  pub pam_end : W → W

-- `base64::decoder::decode` is `b64`. The two strings, if the text has a colon.
unfoldable pub decode : (Bytes → Bytes) → Bytes → Option (Bytes × Bytes)
decode b64 token = elim (cut_at b':' (b64 token)) [
  | none ↦ none
  | some (username, rest) ↦ some (username, drop 1 rest)
]

-- One more response in front, if the loop does not fail.
abbrev pub also : Option Bytes → Option (List (Option Bytes)) → Option (List (Option Bytes))
also response none = none
also response (some responses) = some (response ∷ responses)

-- The loop over the messages.
unfoldable pub respond : Credentials → Conversation
respond creds [] = some []
respond creds (Style.prompt_echo_on ∷ messages) =
    also (some (c_string creds.username)) (respond creds messages)
respond creds (Style.prompt_echo_off ∷ messages) =
    also (some (c_string creds.password)) (respond creds messages)
respond creds (Style.text_info ∷ messages) = also none (respond creds messages)
respond creds (Style.error_msg ∷ messages) = also none (respond creds messages)
respond creds (Style.other ∷ messages) = none

unfoldable pub conversation : Credentials → Conversation
conversation creds [] = none
conversation creds (message ∷ messages) = respond creds (message ∷ messages)

-- `std::getline`
unfoldable pub first_line : Bytes → Bytes
first_line [] = []
first_line (c ∷ input) = let rest = first_line input in if c == 10 then [] else c ∷ rest

-- `if (result) { ... }`
unfoldable pub and_then : {W : Type 0} → Bool × W → (W → Bool × W) → Bool × W
and_then (true, w) next = next w
and_then (false, w) next = (false, w)

module _ {W : Type 0} (pam : Pam W) where
  -- The part that ends with `pam_end`.
  unfoldable pub check_user : Bytes → W → Bool × W
  check_user username w =
      let (result, w') =
        and_then (pam.pam_authenticate (pam.pam_set_user (c_string username) w))
          pam.pam_acct_mgmt in
      (result, pam.pam_end w')

  unfoldable pub authenticate : Bytes → Bytes → W → Bool × W
  authenticate username password w =
      let creds : Credentials = record { username = username; password = password } in
      and_then (pam.pam_start (codes "webfuse") (conversation creds) w) (check_user username)

  -- `main`, which reads `input`; the result is whether it exits with `EXIT_SUCCESS`.
  unfoldable pub run_main : (Bytes → Bytes) → ℕ → Bytes → W → Bool × W
  run_main b64 argc input w =
      if argc == 1
      then elim (decode b64 (first_line input)) [
        | none ↦ (false, w)
        | some (username, password) ↦ authenticate username password w
      ]
      else (false, w)
