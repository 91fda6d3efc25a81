-- ===== src/Server/Reconnect.antt =====
-- A provider that connects anew while a call of its earlier connection waits.
use webfuse.Base.{
  ℕ, ◌^◌, ◌<◌, ◌≡◌, ◌≢◌, refl, List, [], ◌∷◌, ◌++◌, Bool, true, Option, none, some, arith,
}
use webfuse.Flags.Platform.{Platform}
use webfuse.Message.Bytes.{Bytes, be32}
use webfuse.Message.Types.{ResponseType, response_code}
use webfuse.Message.Writer.{Writer, set_id}
use webfuse.Message.Reader.At.{at}
use webfuse.Rpc.Exchange.{head}
use webfuse.Server.{
  ServerHandler, set_value, set_exception, find, next_id, perform, on_established, emplace, enqueue,
  ask_credentials,
}
use webfuse.Server.Authentication.{Header}
use webfuse.Server.Events
use webfuse.Server.Events.{Event, established, call_perform, run}
use webfuse.Server.Loop.{run-append}
use webfuse.Server.Delivery.{joined, arrivals, run-arrivals, on_message-response}

-- A handler without a connection, but with an accepted header of a new one.
abbrev pub unconnected : ServerHandler → ServerHandler
unconnected s = record s { connection = none; is_authenticated = true; current_message = [] }

module _ (p : Platform) (copy_header : ℕ → Header → Option Bytes)
    (authenticate : Bytes → Bytes → Bool) where
  -- The state in which the new call leaves the handler.
  abbrev called : ℕ → Writer → ServerHandler → ServerHandler
  called wsi writer s = enqueue p writer (record (unconnected s) { connection = some wsi; id = 0 })

  refused :
      (wsi old new : ℕ) (writer : Writer) (s : ServerHandler)
      → find 1 s.pending_responses ≡ some old
      → run p copy_header authenticate
          (established wsi ∷ call_perform writer new ∷ [])
          (unconnected s)
        ≡ (set_exception new ∷ [], called wsi writer s)
  unfolding run Events.step on_established perform emplace enqueue next_id ask_credentials set_id
  refused wsi old new writer s pending = rw (pending, emplace) refl

  arrived :
      (wsi old code : ℕ) (writer : Writer) (fragments : List Bytes) (last body : Bytes)
      (s : ServerHandler)
      → code < 2 ^ 8
      → code ≢ response_code ResponseType.getcreds
      → find 1 s.pending_responses ≡ some old
      → joined fragments last ≡ be32 1 ++ code ∷ body
      → (let after =
            run p copy_header authenticate (arrivals wsi fragments last) (called wsi writer s) in
          (after.0 ≡ set_value old (at (head 1 code) body) ∷ [])
          × (after.1.requests ≡ s.requests ++ set_id p 1 writer ∷ []))
  unfolding enqueue next_id
  arrived wsi old code writer fragments last body s byte other pending whole =
      rw
        (
          run-arrivals p copy_header authenticate wsi fragments last (called wsi writer s),
          whole,
          on_message-response authenticate wsi 1 code old body (called wsi writer s) (omega arith)
              byte other pending,
        )
        (refl, refl)

  -- If a provider connects anew, authenticated by its header, while the call with the id 1 of an
  -- earlier connection is still pending and no fragment of a message is left of it, the first new
  -- call gets an exception, but its request is put into the queue, with the id 1 too: a response
  -- with this id, of a type other than that to `getcreds` and in any fragments, gives its reader
  -- to the old call.
  pub reconnect-crossed :
      (wsi old new code : ℕ) (writer : Writer) (fragments : List Bytes) (last body : Bytes)
      (s : ServerHandler)
      → code < 2 ^ 8
      → code ≢ response_code ResponseType.getcreds
      → find 1 s.pending_responses ≡ some old
      → joined fragments last ≡ be32 1 ++ code ∷ body
      → (let after =
            run p copy_header authenticate
              ((established wsi ∷ call_perform writer new ∷ []) ++ arrivals wsi fragments last)
              (unconnected s) in
          (after.0 ≡ set_exception new ∷ set_value old (at (head 1 code) body) ∷ [])
          × (after.1.requests ≡ s.requests ++ set_id p 1 writer ∷ []))
  reconnect-crossed wsi old new code writer fragments last body s byte other pending whole =
      let (answered, queued) =
        arrived wsi old code writer fragments last body s byte other pending whole in
      rw
        (
          run-append p copy_header authenticate (established wsi ∷ call_perform writer new ∷ [])
              (arrivals wsi fragments last) (unconnected s),
          refused wsi old new writer s pending,
          answered,
          queued,
        )
        (refl, refl)
