-- ===== src/Tests/Threads.antt =====
-- The thread of the service, and a provider that connects anew, at concrete inputs.
use webfuse.Base.{All, ◌≤◌, ℕ, zero, suc, ◌<◌, ◌≡◌, refl, [], ◌∷◌, ◌++◌, some, true, false, arith}
use webfuse.Message.Bytes.{be32}
use webfuse.Message.Types
use webfuse.Message.Types.{RequestType}
use webfuse.Message.Writer.{set_id, Writer, get_data, new_request}
use webfuse.Message.Reader.At.{at}
use webfuse.Rpc.Exchange.{head}
use webfuse.Server
use webfuse.Server.{ServerHandler, set_value, set_exception}
use webfuse.Server.Delivery
use webfuse.Server.Delivery.{sent, arrivals}
use webfuse.Server.Closed
use webfuse.Server.Closed.{IsException}
use webfuse.Server.Tickets.{settled, calls, called}
use webfuse.Server.Events.{closed, call_poll, established, call_perform, run}
use webfuse.Server.Loop
use webfuse.Server.Loop.{serve, turns}
use webfuse.Server.Reconnect
use webfuse.Server.Reconnect.{unconnected}
use webfuse.Client.{client_established, client_closed, client_writeable, new_user_data}
use webfuse.Provider.Session.{Session}
use webfuse.ProviderMain.Run
use webfuse.ProviderMain.Run.{stopped}
use webfuse.ProviderMain.Program
use webfuse.ProviderMain.Program.{Program, Round, ends, loses, service, requested}
use webfuse.Tests.Samples.{linux, sample, Notes}
use webfuse.Tests.Service.{no_header, accepts, fresh}

abbrev first : Writer
first = new_request linux RequestType.access

abbrev second : Writer
second = new_request linux RequestType.rmdir

abbrev busy : ServerHandler
busy = record fresh {
  connection = some 5;
  requests = first ∷ second ∷ [];
  pending_responses = (1, 3) ∷ [];
}

serve-drained_example :
    (let after = serve linux no_header accepts (turns linux no_header accepts 2 false busy) busy in
      (sent after.0 ≡ get_data linux first ∷ get_data linux second ∷ [])
      × (after.1.requests ≡ [])
      × (after.1.pending_responses ≡ (1, 3) ∷ []))
unfolding Server.new_handler
serve-drained_example =
    Loop.serve-drained linux no_header accepts 5 (first ∷ second ∷ []) false busy refl refl refl

reconnect-crossed_example :
    (let after =
        run linux no_header accepts
          ((established 5 ∷ call_perform first 8 ∷ []) ++ arrivals 5 (be32 1 ∷ []) (0x81 ∷ be32 0))
          (unconnected busy) in
      (after.0 ≡ set_exception 8 ∷ set_value 3 (at (head 1 0x81) (be32 0)) ∷ [])
      × (after.1.requests ≡ first ∷ second ∷ set_id linux 1 first ∷ []))
unfolding Delivery.joined Server.find Types.response_code
reconnect-crossed_example =
    Reconnect.reconnect-crossed linux no_header accepts 5 3 8 0x81 first (be32 1 ∷ [])
      (0x81 ∷ be32 0) (be32 0) busy (omega arith) (omega arith) refl refl

closed-refused_example :
    All IsException
      (run linux no_header accepts
        (closed 5 ∷ call_perform first 8 ∷ call_poll ∷ call_perform second 9 ∷ [])
        busy).0
    × (1
        ≤ settled 8
            (run linux no_header accepts
              (closed 5 ∷ call_perform first 8 ∷ call_poll ∷ call_perform second 9 ∷ [])
              busy).0)
unfolding calls called
closed-refused_example =
    Closed.closed-refused linux no_header accepts 5
      (call_perform first 8 ∷ call_poll ∷ call_perform second 9 ∷ []) busy 8 refl
      (record {}, (record {}, (record {}, record {})))

-- The provider's loop: a connection that is established, and then lost.
abbrev rounds : ℕ → Round
rounds zero = record { signalled = false; reasons = client_established ∷ [] }
rounds (suc i) = record { signalled = false; reasons = client_closed ∷ client_writeable ∷ [] }

lost : ends (rounds 1) ≡ true
unfolding loses
lost = refl

kept : (i : ℕ) → i < 1 → ends (rounds i) ≡ false
unfolding loses
kept zero less = refl
kept (suc i) less = absurd (omega (arith, less))

abbrev session : Session Notes
session = record { user_data = new_user_data; state = [] }

serve-ends_example :
    (w : Program Notes) × (Run.serve
        (service linux sample 9 rounds)
        (requested linux sample 9 rounds)
        3
        (record { round = 0; shutdown_requested = false; session = session; written = [] })
      ≡ stopped w)
    × (w.round ≡ 2)
serve-ends_example = Program.serve-ends linux sample 9 rounds 1 3 session lost kept (omega arith)
