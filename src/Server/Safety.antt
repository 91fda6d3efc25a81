-- ===== src/Server/Safety.antt =====
-- Who is authenticated.
use webfuse.Base.{
  ℕ, ◌≡◌, refl, List, [], ◌∷◌, ◌++◌, Bool, true, false, Option, none, some, inl, inr, ◌⊎◌, ◌==◌,
  if◌then◌else◌, if-both, if-knowing, Bool-cases, ◌&&◌, not, Option-cases,
}
use webfuse.Base.Int.{ℤ}
use webfuse.Flags.Platform.{Platform}
use webfuse.Message.Bytes.{Bytes}
use webfuse.Message.Writer.{Writer}
use webfuse.Message.Reader.{Reader, new_reader, read_str}
use webfuse.Message.Types.{ResponseType, response_code}
use webfuse.Server
use webfuse.Server.{ServerHandler, Effect, is_empty, read_head}
use webfuse.Server.Authentication.{Header, authenticate_via_header, get_auth_token}
use webfuse.Server.Events.{
  Event, filter_protocol_connection, established, closed, receive, server_writeable, call_perform,
  call_poll, step, run,
}

-- The credentials in a complete message, if it is a response to `getcreds`.
unfoldable pub credentials_of : Bytes → List Bytes
credentials_of message = elim (read_head (new_reader message)) [
  | none ↦ []
  | some ((id, message_type), rest) ↦
      if message_type == response_code ResponseType.getcreds
      then elim (read_str rest) [ none ↦ [] | some (credentials, _) ↦ credentials ∷ [] ]
      else []
]

module _ (copy_header : ℕ → Header → Option Bytes) where
  -- The tokens that an event presents: the header of a connection, or the credentials of a message.
  unfoldable pub presented : Event → ServerHandler → List Bytes
  presented (filter_protocol_connection wsi) s = get_auth_token copy_header wsi s.auth_header ∷ []
  presented (receive wsi fragment true) s = credentials_of (s.current_message ++ fragment)
  presented _ s = []

  unfoldable pub tokens :
      Platform → (Bytes → Bytes → Bool) → List Event → ServerHandler → List Bytes
  tokens p authenticate [] s = []
  tokens p authenticate (e ∷ es) s =
      presented e s ++ tokens p authenticate es (step p copy_header authenticate e s).1.1

-- A token that the authenticator accepts.
unfoldable pub HasAccepted : (Bytes → Bool) → List Bytes → Type 0
HasAccepted accepts [] = ⊥
HasAccepted accepts (t ∷ ts) = (accepts t ≡ true) ⊎ HasAccepted accepts ts

HasAccepted-left :
    (accepts : Bytes → Bool) (xs ys : List Bytes)
    → HasAccepted accepts xs
    → HasAccepted accepts (xs ++ ys)
unfolding HasAccepted
HasAccepted-left accepts [] ys h = elim h [ ]
HasAccepted-left accepts (x ∷ xs) ys (inl h) = inl h
HasAccepted-left accepts (x ∷ xs) ys (inr h) = inr (HasAccepted-left accepts xs ys h)

HasAccepted-right :
    (accepts : Bytes → Bool) (xs ys : List Bytes)
    → HasAccepted accepts ys
    → HasAccepted accepts (xs ++ ys)
unfolding HasAccepted
HasAccepted-right accepts [] ys h = h
HasAccepted-right accepts (x ∷ xs) ys h = inr (HasAccepted-right accepts xs ys h)

-- What an operation may do to the authentication: the configuration stays, and who is authenticated
-- afterwards was so before, or the authentication is off, or one of `ts` is accepted.
unfoldable pub Allowed :
    (Bytes → Bytes → Bool) → List Bytes → ServerHandler → ServerHandler → Type 0
Allowed authenticate ts s after =
    (after.authenticator ≡ s.authenticator)
    × (after.is_authenticated ≡ true
        → (s.is_authenticated ≡ true)
          ⊎ ((is_empty s.authenticator ≡ true) ⊎ HasAccepted (authenticate s.authenticator) ts))

module _ (authenticate : Bytes → Bytes → Bool) (s : ServerHandler) where
  unchanged :
      (ts : List Bytes) (after : ServerHandler)
      → after.authenticator ≡ s.authenticator
      → after.is_authenticated ≡ s.is_authenticated
      → Allowed authenticate ts s after
  unfolding Allowed
  unchanged ts after e same = (e, λ h. inl (rw same at h))

  -- A verdict on one token.
  judged :
      (t : Bytes) (after : ServerHandler)
      → after.authenticator ≡ s.authenticator
      → after.is_authenticated ≡ authenticate s.authenticator t
      → Allowed authenticate (t ∷ []) s after
  unfolding Allowed HasAccepted
  judged t after e same = (e, λ h. inr (inr (inl (rw same at h))))

  header-Allowed :
      (copy_header : ℕ → Header → Option Bytes) (wsi : ℕ)
      → Allowed authenticate
          (get_auth_token copy_header wsi s.auth_header ∷ [])
          s
          (authenticate_via_header copy_header authenticate wsi s).1
  unfolding authenticate_via_header Allowed
  header-Allowed copy_header wsi =
      let token = get_auth_token copy_header wsi s.auth_header in
      let P : ℤ × ServerHandler → Type 0 = λ after. Allowed authenticate (token ∷ []) s (after.1) in
      if-knowing P (is_empty s.authenticator) (λ off. (refl, λ h. inr (inl off)))
        (λ on.
          if-both P (is_empty s.auth_header) (refl, λ h. absurd (cc))
            (if-both P (is_empty token) (refl, λ h. absurd (cc))
              (judged token (record s { is_authenticated = authenticate s.authenticator token })
                refl refl)))

  finish_authentication-Allowed :
      (wsi : ℕ) (reader : Reader)
      → Allowed authenticate
          (elim (read_str reader) [ none ↦ [] | some (credentials, _) ↦ credentials ∷ [] ])
          s
          (Server.finish_authentication authenticate wsi reader s).1
  unfolding Server.finish_authentication
  finish_authentication-Allowed wsi reader = elim (Option-cases (read_str reader)) [
    | inl e ↦ rw (e, Server.finish_authentication) (unchanged [] s refl refl)
    | inr ((credentials, rest), e) ↦
        rw (e, Server.finish_authentication)
          (if-knowing
            (λ (after : List Effect × ServerHandler).
              Allowed authenticate (credentials ∷ []) s (after.1))
            (authenticate s.authenticator credentials)
            (λ accepted.
              judged credentials (record s { is_authenticated = true }) refl (rw accepted refl))
            (λ rejected.
              unchanged (credentials ∷ []) (record s { shutdown_requested = true }) refl refl))
  ]

  resolve-Allowed :
      (ts : List Bytes) (id : ℕ) (reader : Reader)
      → Allowed authenticate ts s (Server.resolve id reader s).1
  unfolding Server.resolve
  resolve-Allowed ts id reader = elim (Option-cases (Server.find id s.pending_responses)) [
    | inl e ↦ rw (e, Server.resolve) (unchanged ts s refl refl)
    | inr (ticket, e) ↦
        rw (e, Server.resolve)
          (unchanged ts (record s { pending_responses = Server.erase id s.pending_responses }) refl
            refl)
  ]

  on_message-Allowed :
      (wsi : ℕ) (message : Bytes)
      → Allowed authenticate
          (credentials_of message)
          s
          (Server.on_message authenticate wsi (new_reader message) s).1
  unfolding Server.on_message credentials_of
  on_message-Allowed wsi message = elim (Option-cases (read_head (new_reader message))) [
    | inl e ↦ rw (e, Server.on_message, credentials_of) (unchanged [] s refl refl)
    | inr (((id, message_type), rest), e) ↦
        rw (e, Server.on_message, credentials_of)
          (elim (Bool-cases (message_type == response_code ResponseType.getcreds)) [
            | inl t ↦ rw t (finish_authentication-Allowed wsi rest)
            | inr f ↦ rw f (resolve-Allowed [] id rest)
          ])
  ]

  poll-Allowed : Allowed authenticate [] s (Server.poll s).1
  unfolding Server.poll Allowed
  poll-Allowed =
      if-both (λ (after : List Effect × ServerHandler). Allowed authenticate [] s (after.1))
        (is_empty s.requests) (unchanged [] s refl refl)
        (elim (Option-cases (s.connection)) [
          | inl e ↦
              rw e (unchanged [] (record s { requests = []; pending_responses = [] }) refl refl)
          | inr (wsi, e) ↦ rw e (unchanged [] s refl refl)
        ])

  on_established-Allowed :
      (p : Platform) (wsi : ℕ) → Allowed authenticate [] s (Server.on_established p wsi s).1.1
  unfolding Server.on_established Server.ask_credentials Server.enqueue Allowed
  on_established-Allowed p wsi = elim (Option-cases (s.connection)) [
    | inl e ↦
        rw (e, Server.on_established, Server.ask_credentials)
          (if-both
            (λ (after : ℤ × (List Effect × ServerHandler)). Allowed authenticate [] s (after.1.1))
            (not s.is_authenticated && not (is_empty s.authenticator)) (refl, λ h. inl h)
            (refl, λ h. inl h))
    | inr (other, e) ↦ rw (e, Server.on_established) (unchanged [] s refl refl)
  ]

  emplace-Allowed :
      (p : Platform) (ticket : ℕ) → Allowed authenticate [] s (Server.emplace p ticket s).1
  unfolding Server.emplace
  emplace-Allowed p ticket = elim (Option-cases (Server.find s.id s.pending_responses)) [
    | inl e ↦
        rw (e, Server.emplace)
          (unchanged [] (record s { pending_responses = (s.id, ticket) ∷ s.pending_responses }) refl
            refl)
    | inr (other, e) ↦ rw (e, Server.emplace) (unchanged [] s refl refl)
  ]

  send_front-Allowed :
      (p : Platform) (requests : List Writer)
      → Allowed authenticate [] s (Server.send_front p requests s).1
  unfolding Server.send_front
  send_front-Allowed p [] = unchanged [] s refl refl
  send_front-Allowed p (writer ∷ rest) = unchanged [] (record s { requests = rest }) refl refl

module _ (authenticate : Bytes → Bytes → Bool) (s : ServerHandler) where
  perform-Allowed :
      (p : Platform) (writer : Writer) (ticket : ℕ)
      → Allowed authenticate [] s (Server.perform p writer ticket s).1
  unfolding Server.perform Server.enqueue Allowed
  perform-Allowed p writer ticket =
      if-both (λ (after : List Effect × ServerHandler). Allowed authenticate [] s (after.1))
        s.is_authenticated (emplace-Allowed authenticate (Server.enqueue p writer s) p ticket)
        (unchanged authenticate s [] s refl refl)

  step-Allowed :
      (p : Platform) (copy_header : ℕ → Header → Option Bytes) (e : Event)
      → Allowed authenticate (presented copy_header e s) s (step p copy_header authenticate e s).1.1
  unfolding step presented Server.on_closed Server.on_receive Server.on_writable Allowed
  step-Allowed p copy_header (filter_protocol_connection wsi) =
      header-Allowed authenticate s copy_header wsi
  step-Allowed p copy_header (established wsi) = on_established-Allowed authenticate s p wsi
  step-Allowed p copy_header (closed wsi) =
      if-both (Allowed authenticate [] s) (Server.is_connection wsi s.connection)
        (refl, λ h. absurd (cc)) (unchanged authenticate s [] s refl refl)
  step-Allowed p copy_header (receive wsi fragment true) =
      on_message-Allowed authenticate (record s { current_message = [] }) wsi
        (s.current_message ++ fragment)
  step-Allowed p copy_header (receive wsi fragment false) =
      unchanged authenticate s [] (record s { current_message = s.current_message ++ fragment })
        refl refl
  step-Allowed p copy_header server_writeable =
      if-both (λ (after : ℤ × (List Effect × ServerHandler)). Allowed authenticate [] s (after.1.1))
        s.shutdown_requested (unchanged authenticate s [] s refl refl)
        (send_front-Allowed authenticate s p s.requests)
  step-Allowed p copy_header (call_perform writer ticket) = perform-Allowed p writer ticket
  step-Allowed p copy_header call_poll = poll-Allowed authenticate s

-- Whatever happens, a server handler that is authenticated after a sequence of callbacks and
-- calls was so before, or its authentication is disabled, or the authenticator has accepted a
-- token that was presented meanwhile: in the header of a connection, or in a complete message
-- that is a response to `getcreds`.
pub run-authenticated :
    (p : Platform) (copy_header : ℕ → Header → Option Bytes) (authenticate : Bytes → Bytes → Bool)
    (es : List Event) (s : ServerHandler)
    → (run p copy_header authenticate es s).1.is_authenticated ≡ true
    → (s.is_authenticated ≡ true)
      ⊎ ((is_empty s.authenticator ≡ true)
          ⊎ HasAccepted (authenticate s.authenticator) (tokens copy_header p authenticate es s))
unfolding run tokens Allowed
run-authenticated p copy_header authenticate [] s h = inl h
run-authenticated p copy_header authenticate (e ∷ es) s h =
    let first = step-Allowed authenticate s p copy_header e in
    let after = (step p copy_header authenticate e s).1.1 in
    let later = tokens copy_header p authenticate es after in
    let accepts = authenticate s.authenticator in
    elim (run-authenticated p copy_header authenticate es after h) [
      | inl before ↦ elim (first.1 before) [
        | inl start ↦ inl start
        | inr (inl off) ↦ inr (inl off)
        | inr (inr now) ↦ inr (inr (HasAccepted-left accepts (presented copy_header e s) later now))
      ]
      | inr (inl off) ↦ inr (inl (rw first.0 at off))
      | inr (inr soon) ↦
          inr
            (inr (HasAccepted-right accepts (presented copy_header e s) later (rw first.0 at soon)))
    ]
