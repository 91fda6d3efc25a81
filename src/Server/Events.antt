-- ===== src/Server/Events.antt =====
-- `ws_server_callback` of src/webfuse/ws/server.cpp, and the calls of the other threads, as steps of
-- the handler.
use webfuse.Base.{ℕ, List, [], ◌∷◌, ◌++◌, Bool, Option}
use webfuse.Base.Int.{ℤ, pos}
use webfuse.Flags.Platform.{Platform}
use webfuse.Message.Bytes.{Bytes}
use webfuse.Message.Writer.{Writer}
use webfuse.Server.{
  ServerHandler, Effect, on_established, on_closed, on_receive, on_writable, perform, poll,
}
use webfuse.Server.Authentication.{Header, authenticate_via_header}

-- The reasons of a callback that the handler knows, and the calls of `perform` and `poll`.
pub data Event : Type 0 where
  filter_protocol_connection : ℕ → Event
  established : ℕ → Event
  closed : ℕ → Event
  receive : ℕ → Bytes → Bool → Event
  server_writeable : Event
  call_perform : Writer → ℕ → Event
  call_poll : Event

module _ (p : Platform) (copy_header : ℕ → Header → Option Bytes)
    (authenticate : Bytes → Bytes → Bool) where
  abbrev silently : ℤ × ServerHandler → ℤ × (List Effect × ServerHandler)
  silently (result, s) = (result, ([], s))

  unfoldable pub step : Event → ServerHandler → ℤ × (List Effect × ServerHandler)
  step (filter_protocol_connection wsi) s =
      silently (authenticate_via_header copy_header authenticate wsi s)
  step (established wsi) s = on_established p wsi s
  step (closed wsi) s = (pos 0, ([], on_closed wsi s))
  step (receive wsi fragment is_final) s = (pos 0, on_receive authenticate wsi fragment is_final s)
  step server_writeable s = on_writable p s
  step (call_perform writer ticket) s = (pos 0, perform p writer ticket s)
  step call_poll s = (pos 0, poll s)

  -- A run: all effects, in their order, and the state at the end.
  unfoldable pub run : List Event → ServerHandler → List Effect × ServerHandler
  run [] s = ([], s)
  run (e ∷ es) s =
      let after = step e s in let rest = run es after.1.1 in (after.1.0 ++ rest.0, rest.1)
