-- ===== src/Server/Authentication.antt =====
-- `authenticate_via_header` and `get_auth_token` of src/webfuse/ws/server_handler.cpp. How a header is
-- copied out of a request, and the verdict on a token, are parameters.
use webfuse.Base.{ℕ, [], Bool, true, false, Option, none, some, if◌then◌else◌}
use webfuse.Base.Text.{codes, same, c_string}
use webfuse.Base.Int.{ℤ, pos, neg}
use webfuse.Message.Bytes.{Bytes}
use webfuse.Server.{ServerHandler, is_empty}

pub data Header : Type 0 where
  authorization : Header
  x_auth_token : Header
  custom : Bytes → Header

unfoldable pub header_of : Bytes → Header
header_of name =
    if same name (codes "authorization")
    then authorization
    else if same name (codes "x-auth-token")
    then x_auth_token
    else custom name

-- `copy_header` is none if the header is missing or empty, or its copy fails.
module _ (copy_header : ℕ → Header → Option Bytes) where
  unfoldable pub get_auth_token : ℕ → Bytes → Bytes
  get_auth_token wsi auth_header = elim (copy_header wsi (header_of auth_header)) [
    | none ↦ []
    | some data_ ↦ c_string data_
  ]

  module _ (authenticate : Bytes → Bytes → Bool) where
    unfoldable pub authenticate_via_header : ℕ → ServerHandler → ℤ × ServerHandler
    authenticate_via_header wsi s =
        if is_empty s.authenticator
        then (pos 0, record s { is_authenticated = true })
        else if is_empty s.auth_header
        then (pos 0, record s { is_authenticated = false })
        else let token = get_auth_token wsi s.auth_header in
          if is_empty token
          then (pos 0, record s { is_authenticated = false })
          else let accepted = authenticate s.authenticator token in
            (if accepted then pos 0 else neg 1, record s { is_authenticated = accepted })
