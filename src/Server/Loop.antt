-- ===== src/Server/Loop.antt =====
-- The thread of `ws_server::detail` in src/webfuse/ws/server.cpp, which polls the handler and lets
-- libwebsockets serve its connection until the destructor asks it to end.
use webfuse.Base.{
  ℕ, zero, suc, ◌||◌, true, ◌≡◌, refl, sym, subst, ap, ◌∙◌, List, [], ◌∷◌, ◌++◌, map, append_assoc,
  append-nil, Bool, false, Option, some, length, if◌then◌else◌, Bool-cases, inl, inr,
}
use webfuse.Flags.Platform.{Platform}
use webfuse.Message.Bytes.{Bytes}
use webfuse.Message.Writer.{Writer, get_data}
use webfuse.Server.{
  ServerHandler, Effect, callback_on_writable, lws_write, set_value, set_exception, poll,
  on_writable, send_front,
}
use webfuse.Server.Authentication.{Header}
use webfuse.Server.Events
use webfuse.Server.Events.{Event, call_poll, server_writeable, run}
use webfuse.Server.Delivery.{sent}

-- A turn of the loop: what `shutdown_requested` is before it, and the callbacks and the calls of other
-- threads until it ends.
pub record Turn : Type 0 where
  pub shutdown_requested : Bool
  pub events : List Event

-- A turn in which the connection is writable once.
abbrev pub writable_turn : Turn
writable_turn = record { shutdown_requested = false; events = server_writeable ∷ [] }

-- Whether effects ask libwebsockets for a writable connection.
unfoldable pub asks : List Effect → Bool
asks [] = false
asks (callback_on_writable connection ∷ effects) = true
asks (lws_write connection bytes ∷ effects) = asks effects
asks (set_value ticket reader ∷ effects) = asks effects
asks (set_exception ticket ∷ effects) = asks effects

or_true : (a : Bool) → (a || true) ≡ true
or_true true = refl
or_true false = refl

module _ (p : Platform) (copy_header : ℕ → Header → Option Bytes)
    (authenticate : Bytes → Bytes → Bool) where
  unfoldable pub serve : List Turn → ServerHandler → List Effect × ServerHandler
  serve [] s = ([], s)
  serve (turn ∷ turns) s =
      let polled = poll s in
      let served = run p copy_header authenticate turn.events polled.1 in
      let rest = serve turns served.1 in
      if turn.shutdown_requested then ([], s) else (polled.0 ++ (served.0 ++ rest.0), rest.1)

  -- The events of a thread as those of one run.
  unfoldable pub thread_events : List Turn → List Event
  thread_events [] = []
  thread_events (turn ∷ turns) =
      let rest = thread_events turns in
      if turn.shutdown_requested then [] else call_poll ∷ (turn.events ++ rest)

  pub run-append :
      (events more : List Event) (s : ServerHandler)
      → run p copy_header authenticate (events ++ more) s ≡ (
        (run p copy_header authenticate events s).0
            ++ (run p copy_header authenticate more (run p copy_header authenticate events s).1).0,
        (run p copy_header authenticate more (run p copy_header authenticate events s).1).1,
      )
  unfolding run
  run-append [] more s = refl
  run-append (event ∷ events) more s =
      let (result, (effects, after)) = Events.step p copy_header authenticate event s in
      rw (run-append events more after) (
        rw
          (append_assoc effects (run p copy_header authenticate events after).0
            (run p copy_header authenticate more (run p copy_header authenticate events after).1).0)
          refl)

  pub serve-run :
      (turns : List Turn) (s : ServerHandler)
      → serve turns s ≡ run p copy_header authenticate (thread_events turns) s
  unfolding serve thread_events run Events.step
  serve-run [] s = refl
  serve-run (turn ∷ turns) s = elim (Bool-cases (turn.shutdown_requested)) [
    | inl ended ↦ rw (ended) refl
    | inr running ↦ rw (running) (
        rw (serve-run turns (run p copy_header authenticate turn.events (poll s).1).1)
          (rw (run-append turn.events (thread_events turns) (poll s).1) refl))
  ]

  pub poll_asks :
      (wsi : ℕ) (writer : Writer) (rest : List Writer) (s : ServerHandler)
      → s.connection ≡ some wsi
      → s.requests ≡ writer ∷ rest
      → poll s ≡ (callback_on_writable (some wsi) ∷ [], s)
  unfolding poll
  poll_asks wsi writer rest s connected e = simp (e, connected, poll)

  writes :
      (writer : Writer) (rest : List Writer) (s : ServerHandler) (more : List Effect)
      → s.shutdown_requested ≡ false
      → s.requests ≡ writer ∷ rest
      → (sent ((on_writable p s).1.0 ++ more) ≡ get_data p writer ∷ sent more)
        × ((on_writable p s).1.1 ≡ record s { requests = rest })
  unfolding on_writable send_front sent
  writes writer [] s more running e =
      (simp (running, e, on_writable, send_front), simp (running, e, on_writable, send_front))
  writes writer (other ∷ rest) s more running e =
      (simp (running, e, on_writable, send_front), simp (running, e, on_writable, send_front))

  -- The next `n` turns, in which libwebsockets makes the connection writable exactly where this was asked for
  -- since it last was: before, or by the poll of the turn.
  unfoldable pub turns : ℕ → Bool → ServerHandler → List Turn
  turns zero asked s = []
  turns (suc n) asked s =
      let polled = poll s in
      let events = if asked || asks polled.0 then server_writeable ∷ [] else [] in
      let served = run p copy_header authenticate events polled.1 in
      record { shutdown_requested = false; events = events } ∷ turns n (asks served.0) served.1

  -- A turn sends the first of the requests.
  turn-front :
      (wsi : ℕ) (writer : Writer) (rest : List Writer) (turns : List Turn) (s : ServerHandler)
      → s.connection ≡ some wsi
      → s.shutdown_requested ≡ false
      → s.requests ≡ writer ∷ rest
      → (let after = serve turns (record s { requests = rest }) in
          (sent (serve (writable_turn ∷ turns) s).0 ≡ get_data p writer ∷ sent after.0)
          × ((serve (writable_turn ∷ turns) s).1 ≡ after.1))
  unfolding serve run Events.step sent
  turn-front wsi writer rest turns s connected running e =
      let asked = poll_asks wsi writer rest s connected e in
      let (bytes, after) =
        writes writer rest s (serve turns (record s { requests = rest })).0 running e in
      rw (asked, after, append-nil ((on_writable p s).1.0)) (bytes, refl)

  poll_turns :
      (n : ℕ) (asked : Bool) (wsi : ℕ) (writer : Writer) (rest : List Writer) (s : ServerHandler)
      → s.connection ≡ some wsi
      → s.shutdown_requested ≡ false
      → s.requests ≡ writer ∷ rest
      → (again : Bool) × (turns (suc n) asked s
          ≡ writable_turn ∷ turns n again (record s { requests = rest }))
  unfolding turns asks run Events.step
  poll_turns n asked wsi writer rest s connected running e =
      let polled = poll_asks wsi writer rest s connected e in
      let (bytes, after) = writes writer rest s [] running e in
      (
        asks (run p copy_header authenticate (server_writeable ∷ []) s).0,
        rw (polled, or_true asked, after) refl,
      )

  -- A connected handler that is not shutting down sends all requests of its queue, in their
  -- order, in as many turns of its thread as there are requests, where each turn polls the
  -- handler, and libwebsockets makes the connection writable in it only if that poll, or the
  -- handler since the connection was last writable, has asked for it by
  -- `lws_callback_on_writable`; then the queue is empty, and the calls that wait for a response
  -- are the same.
  pub serve-drained :
      (wsi : ℕ) (requests : List Writer) (asked : Bool) (s : ServerHandler)
      → s.connection ≡ some wsi
      → s.shutdown_requested ≡ false
      → s.requests ≡ requests
      → (let after = serve (turns (length requests) asked s) s in
          (sent after.0 ≡ map (get_data p) requests)
          × (after.1.requests ≡ [])
          × (after.1.pending_responses ≡ s.pending_responses))
  unfolding serve sent turns
  serve-drained wsi [] asked s connected running e = (refl, e, refl)
  serve-drained wsi (writer ∷ rest) asked s connected running e =
      let (again, made) = poll_turns (length rest) asked wsi writer rest s connected running e in
      let next : ServerHandler = record s { requests = rest } in
      let (bytes, after) =
        turn-front wsi writer rest (turns (length rest) again next) s connected running e in
      let (others, none_left, same) = serve-drained wsi rest again next connected running refl in
      subst
        (λ made.
          let after = serve made s in
          (sent after.0 ≡ map (get_data p) (writer ∷ rest))
          × (after.1.requests ≡ [])
          × (after.1.pending_responses ≡ s.pending_responses))
        (sym made)
        (
          bytes ∙ ap (λ more. get_data p writer ∷ more) others,
          rw (after) none_left,
          rw (after) same,
        )
