-- ===== src/Server/Closed.antt =====
-- A handler whose connection is closed, until another is established.
use webfuse.Base.{
  ℕ, ◌≤◌, ◌≡◌, refl, List, [], ◌∷◌, ◌++◌, All, Bool, true, false, Option, none, some, ==_self,
  arith, if◌then◌else◌, if-both,
}
use webfuse.Flags.Platform.{Platform}
use webfuse.Message.Bytes.{Bytes}
use webfuse.Message.Writer.{Writer}
use webfuse.Server.{
  ServerHandler, Effect, callback_on_writable, set_exception, abandon, perform, poll, on_closed,
  is_empty,
}
use webfuse.Server.Authentication.{Header}
use webfuse.Server.Events
use webfuse.Server.Events.{
  Event, filter_protocol_connection, established, closed, receive, server_writeable, call_perform,
  call_poll, run,
}
use webfuse.Server.Tickets.{settled, settles, calls, called, settled-append}

-- The calls of other threads, and the polls of the handler's own.
abbrev pub IsCall : Event → Type 0
IsCall (call_perform writer ticket) = Unit {0}
IsCall call_poll = Unit {0}
IsCall _ = ⊥

abbrev pub IsException : Effect → Type 0
IsException (set_exception ticket) = Unit {0}
IsException _ = ⊥

abbrev IsOffline : ServerHandler → Type 0
IsOffline s = (s.connection ≡ none) × (s.is_authenticated ≡ false)

closed-IsOffline :
    (wsi : ℕ) (s : ServerHandler) → s.connection ≡ some wsi → IsOffline (on_closed wsi s)
unfolding on_closed
closed-IsOffline wsi s e =
    (rw (e, ==_self wsi, on_closed) refl, rw (e, ==_self wsi, on_closed) refl)

append_exceptions :
    (xs ys : List Effect) → All IsException xs → All IsException ys → All IsException (xs ++ ys)
append_exceptions [] ys h g = g
append_exceptions (x ∷ xs) ys (h, hs) g = (h, append_exceptions xs ys hs g)

abandon-IsException : (pending : List (ℕ × ℕ)) → All IsException (abandon pending)
unfolding abandon
abandon-IsException [] = record {}
abandon-IsException ((key, ticket) ∷ pending) = (record {}, abandon-IsException pending)

if_false : {A : Type 0} (b : Bool) (x y : A) → b ≡ false → (if b then x else y) ≡ y
if_false true x y e = absurd (cc e)
if_false false x y e = refl

-- What a poll with requests does, by its connection.
lost-IsOffline :
    (c : Option ℕ) (s : ServerHandler)
    → c ≡ none
    → IsOffline s
    → (let out : List Effect × ServerHandler = elim c [
      | none ↦ (abandon s.pending_responses, record s { requests = []; pending_responses = [] })
      | some connection ↦ (callback_on_writable (some connection) ∷ [], s)
    ] in
        All IsException out.0 × IsOffline out.1)
lost-IsOffline none s e h = (abandon-IsException s.pending_responses, h)
lost-IsOffline (some connection) s e h = absurd (cc e)

poll-IsOffline :
    (s : ServerHandler) → IsOffline s → All IsException (poll s).0 × IsOffline (poll s).1
unfolding poll
poll-IsOffline s h =
    if-both (λ (out : List Effect × ServerHandler). All IsException out.0 × IsOffline out.1)
      (is_empty s.requests) (record {}, h) (lost-IsOffline s.connection s h.0 h)

module _ (p : Platform) (copy_header : ℕ → Header → Option Bytes)
    (authenticate : Bytes → Bytes → Bool) where
  perform_refused :
      (writer : Writer) (ticket : ℕ) (s : ServerHandler)
      → IsOffline s
      → perform p writer ticket s ≡ (set_exception ticket ∷ [], s)
  unfolding perform
  perform_refused writer ticket s (unconnected, unknown) =
      if_false (s.is_authenticated) _ (set_exception ticket ∷ [], s) unknown

  offline-calls :
      (events : List Event) (s : ServerHandler) (t : ℕ)
      → All IsCall events
      → IsOffline s
      → All IsException (run p copy_header authenticate events s).0
        × (calls t events ≤ settled t (run p copy_header authenticate events s).0)
  unfolding run Events.step calls called settled settles
  offline-calls [] s t h offline = (record {}, omega arith)
  offline-calls (call_perform writer ticket ∷ events) s t (one, h) offline =
      let (exceptions, counted) = offline-calls events s t h offline in
      rw (perform_refused writer ticket s offline) ((record {}, exceptions), omega (arith, counted))
  offline-calls (call_poll ∷ events) s t (one, h) offline =
      let (silent, still_offline) = poll-IsOffline s offline in
      let (exceptions, counted) = offline-calls events (poll s).1 t h still_offline in
      (
        append_exceptions (poll s).0 _ silent exceptions,
        omega (
          arith,
          counted,
          settled-append t (poll s).0 (run p copy_header authenticate events (poll s).1).0,
        ),
      )
  offline-calls (filter_protocol_connection wsi ∷ events) s t (one, h) offline = absurd one
  offline-calls (established wsi ∷ events) s t (one, h) offline = absurd one
  offline-calls (closed wsi ∷ events) s t (one, h) offline = absurd one
  offline-calls (receive wsi fragment is_final ∷ events) s t (one, h) offline = absurd one
  offline-calls (server_writeable ∷ events) s t (one, h) offline = absurd one

  -- After the connection of the handler is closed, whatever calls of threads and polls follow
  -- before anything else happens: all that comes of them are exceptions of promises, so that
  -- nothing is sent and no call gets a reader, and each call gets an exception at least as often
  -- as it is made.
  pub closed-refused :
      (wsi : ℕ) (events : List Event) (s : ServerHandler) (t : ℕ)
      → s.connection ≡ some wsi
      → All IsCall events
      → All IsException (run p copy_header authenticate (closed wsi ∷ events) s).0
        × (calls t events ≤ settled t (run p copy_header authenticate (closed wsi ∷ events) s).0)
  unfolding run Events.step
  closed-refused wsi events s t connected h =
      offline-calls events (on_closed wsi s) t h (closed-IsOffline wsi s connected)
