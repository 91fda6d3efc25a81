-- ===== src/Server/Tickets.antt =====
-- What becomes of the calls that wait for a response.
use webfuse.Base.{
  ℕ, ◌+◌, ◌≡◌, refl, List, [], ◌∷◌, ◌++◌, Bool, not, ◌&&◌, Option, some, ◌==◌, if◌then◌else◌, arith,
  inl, inr, Option-cases, if-both,
}
use webfuse.Base.Int.{ℤ}
use webfuse.Flags.Platform.{Platform}
use webfuse.Message.Bytes.{Bytes}
use webfuse.Message.Writer.{Writer}
use webfuse.Message.Reader.{Reader}
use webfuse.Server
use webfuse.Server.{
  ServerHandler, Effect, callback_on_writable, lws_write, set_value, set_exception, find, erase,
  emplace, enqueue, abandon, resolve, send_front, finish_authentication, read_head, is_empty,
}
use webfuse.Message.Reader.{read_str}
use webfuse.Message.Types.{ResponseType, response_code}
use webfuse.Server.Authentication.{Header, authenticate_via_header}
use webfuse.Server.Events.{
  Event, filter_protocol_connection, established, closed, receive, server_writeable, call_perform,
  call_poll, step, run,
}

-- How often a call occurs among those that wait, that get an answer or an exception, that are made.
unfoldable pub waiting : ℕ → List (ℕ × ℕ) → ℕ
waiting t [] = 0
waiting t ((key, ticket) ∷ pending) = (if ticket == t then 1 else 0) + waiting t pending

unfoldable pub settles : ℕ → Effect → ℕ
settles t (callback_on_writable wsi) = 0
settles t (lws_write wsi bytes) = 0
settles t (set_value ticket reader) = if ticket == t then 1 else 0
settles t (set_exception ticket) = if ticket == t then 1 else 0

unfoldable pub settled : ℕ → List Effect → ℕ
settled t [] = 0
settled t (effect ∷ effects) = settles t effect + settled t effects

unfoldable pub called : ℕ → Event → ℕ
called t (call_perform writer ticket) = if ticket == t then 1 else 0
called t _ = 0

unfoldable pub calls : ℕ → List Event → ℕ
calls t [] = 0
calls t (e ∷ es) = called t e + calls t es

pub settled-append :
    (t : ℕ) (xs ys : List Effect) → settled t (xs ++ ys) ≡ settled t xs + settled t ys
unfolding settled
settled-append t [] ys = omega arith
settled-append t (x ∷ xs) ys = omega (arith, settled-append t xs ys)

settled-abandon : (t : ℕ) (pending : List (ℕ × ℕ)) → settled t (abandon pending) ≡ waiting t pending
unfolding settled abandon waiting settles
settled-abandon t [] = refl
settled-abandon t ((key, ticket) ∷ pending) = omega (arith, settled-abandon t pending)

-- The call that is found is the one that is erased.
waiting-erase :
    (t id ticket : ℕ) (pending : List (ℕ × ℕ))
    → find id pending ≡ some ticket
    → waiting t (erase id pending) + (if ticket == t then 1 else 0) ≡ waiting t pending
unfolding find erase waiting
waiting-erase t id ticket [] e = cc
waiting-erase t id ticket ((key, other) ∷ pending) e =
    ground (arith, waiting-erase t id ticket pending)

-- The balance of an operation that `made` counts the calls of.
unfoldable pub Balanced : ℕ → ℕ → ServerHandler → List Effect × ServerHandler → Type 0
Balanced t made s after =
    settled t after.0 + waiting t after.1.pending_responses ≡ made + waiting t s.pending_responses

module _ (t : ℕ) where
  resolve-Balanced :
      (id : ℕ) (reader : Reader) (s : ServerHandler) → Balanced t 0 s (resolve id reader s)
  unfolding Balanced resolve settled settles
  resolve-Balanced id reader s = elim (Option-cases (find id s.pending_responses)) [
    | inl e ↦ rw (resolve, e) refl
    | inr (ticket, e) ↦
        rw (resolve, e) (omega (arith, waiting-erase t id ticket s.pending_responses e))
  ]

  emplace-Balanced :
      (p : Platform) (ticket : ℕ) (s : ServerHandler)
      → Balanced t (if ticket == t then 1 else 0) s (emplace p ticket s)
  unfolding Balanced emplace settled settles waiting
  emplace-Balanced p ticket s = ground arith

  send_front-Balanced :
      (p : Platform) (requests : List Writer) (s : ServerHandler)
      → Balanced t 0 s (send_front p requests s)
  unfolding Balanced send_front settled settles
  send_front-Balanced p [] s = refl
  send_front-Balanced p (writer ∷ []) s = refl
  send_front-Balanced p (writer ∷ other ∷ rest) s = refl

  poll-Balanced : (s : ServerHandler) → Balanced t 0 s (Server.poll s)
  unfolding Balanced Server.poll settled settles waiting
  poll-Balanced s = ground (arith, settled-abandon t s.pending_responses)

  finish_authentication-Balanced :
      (authenticate : Bytes → Bytes → Bool) (wsi : ℕ) (reader : Reader) (s : ServerHandler)
      → Balanced t 0 s (finish_authentication authenticate wsi reader s)
  unfolding finish_authentication Balanced settled settles
  finish_authentication-Balanced authenticate wsi reader s = elim (Option-cases (read_str reader)) [
    | inl e ↦ rw (e, finish_authentication) refl
    | inr ((credentials, rest), e) ↦
        rw (e, finish_authentication)
          (if-both (Balanced t 0 s) (authenticate s.authenticator credentials) refl refl)
  ]

  on_message-Balanced :
      (authenticate : Bytes → Bytes → Bool) (wsi : ℕ) (reader : Reader) (s : ServerHandler)
      → Balanced t 0 s (Server.on_message authenticate wsi reader s)
  unfolding Server.on_message Balanced settled
  on_message-Balanced authenticate wsi reader s = elim (Option-cases (read_head reader)) [
    | inl e ↦ rw (e, Server.on_message) refl
    | inr (((id, message_type), rest), e) ↦
        rw (e, Server.on_message)
          (if-both (Balanced t 0 s) (message_type == response_code ResponseType.getcreds)
            (finish_authentication-Balanced authenticate wsi rest s) (resolve-Balanced id rest s))
  ]

  on_established-Balanced :
      (p : Platform) (wsi : ℕ) (s : ServerHandler)
      → Balanced t 0 s (Server.on_established p wsi s).1
  unfolding Server.on_established Server.ask_credentials Balanced settled settles enqueue
  on_established-Balanced p wsi s = elim (Option-cases (s.connection)) [
    | inl e ↦
        rw (e, Server.on_established, Server.ask_credentials)
          (if-both (λ (after : ℤ × (List Effect × ServerHandler)). Balanced t 0 s (after.1))
            (not s.is_authenticated && not (is_empty s.authenticator)) refl refl)
    | inr (other, e) ↦ rw (e, Server.on_established) refl
  ]

  pub step-Balanced :
      (p : Platform) (copy_header : ℕ → Header → Option Bytes) (authenticate : Bytes → Bytes → Bool)
      (e : Event) (s : ServerHandler)
      → Balanced t (called t e) s (step p copy_header authenticate e s).1
  unfolding step called Balanced settled settles Server.on_closed Server.on_writable
      Server.on_receive Server.perform enqueue authenticate_via_header
  step-Balanced p copy_header authenticate (filter_protocol_connection wsi) s = ground arith
  step-Balanced p copy_header authenticate (established wsi) s = on_established-Balanced p wsi s
  step-Balanced p copy_header authenticate (closed wsi) s = ground arith
  step-Balanced p copy_header authenticate (receive wsi fragment is_final) s =
      if-both (Balanced t 0 s) is_final
        (on_message-Balanced authenticate wsi _ (record s { current_message = [] })) refl
  step-Balanced p copy_header authenticate server_writeable s =
      if-both (λ (after : ℤ × (List Effect × ServerHandler)). Balanced t 0 s (after.1))
        s.shutdown_requested refl (send_front-Balanced p s.requests s)
  step-Balanced p copy_header authenticate (call_perform writer ticket) s =
      if-both (Balanced t (if ticket == t then 1 else 0) s) s.is_authenticated
        (emplace-Balanced p ticket (enqueue p writer s)) (omega arith)
  step-Balanced p copy_header authenticate call_poll s = poll-Balanced s

  -- No call of `perform` is lost or settled twice: after any sequence of callbacks and calls, a
  -- call has been settled, by a reader or by an exception, or waits among the pending responses,
  -- as often as it was made in the sequence or waited before it.
  pub run-settled :
      (p : Platform) (copy_header : ℕ → Header → Option Bytes) (authenticate : Bytes → Bytes → Bool)
      (es : List Event) (s : ServerHandler)
      → settled t (run p copy_header authenticate es s).0
          + waiting t (run p copy_header authenticate es s).1.pending_responses
        ≡ calls t es + waiting t s.pending_responses
  unfolding run calls settled Balanced
  run-settled p copy_header authenticate [] s = refl
  run-settled p copy_header authenticate (e ∷ es) s =
      let after = step p copy_header authenticate e s in
      omega (
        arith,
        step-Balanced p copy_header authenticate e s,
        run-settled p copy_header authenticate es after.1.1,
        settled-append t after.1.0 (run p copy_header authenticate es after.1.1).0,
      )
