-- ===== src/Tests/Service.antt =====
-- Runs of the server handler, and a response of the provider.
use webfuse.Message.Types.{response_code, get_response_type, get_request_type}
use webfuse.Message.Reader.{new_reader}
use webfuse.Provider.{on_message}
use webfuse.Provider.Answers
use webfuse.Provider.Answers.{IsAnswer}
use webfuse.Tests.Samples.{sample}
use webfuse.Base.{
  ℕ, ◌+◌, ◌<◌, ◌^◌, ◌≡◌, refl, List, [], ◌∷◌, ◌++◌, Bool, true, false, Option, none, ◌⊎◌, ◌==◌,
  arith,
}
use webfuse.Base.Bits
use webfuse.Message.Bytes
use webfuse.Message.Bytes.{Bytes, be32, counted}
use webfuse.Message.Types
use webfuse.Message.Types.{RequestType, request_code}
use webfuse.Message.Reader
use webfuse.Message.Reader.At.{at}
use webfuse.Message.Writer.{Writer, get_data, set_id}
use webfuse.Message.Writer.Shape.{message}
use webfuse.Rpc.Exchange.{head}
use webfuse.Server
use webfuse.Server.{ServerHandler, new_handler, next_id, lws_write, set_value, is_empty}
use webfuse.Server.Authentication.{Header}
use webfuse.Server.Events.{
  Event, established, receive, server_writeable, call_perform, call_poll, closed, run,
  filter_protocol_connection,
}
use webfuse.Server.Tickets
use webfuse.Server.Tickets.{settled, waiting, calls}
use webfuse.Server.Safety
use webfuse.Server.Safety.{HasAccepted, tokens}
use webfuse.Server.Delivery
use webfuse.Server.Delivery.{sent}
use webfuse.Tests.Samples.{linux}

-- No header is sent, and the token 42 is accepted.
abbrev pub no_header : ℕ → Header → Option Bytes
no_header wsi header = none

abbrev pub accepts : Bytes → Bytes → Bool
accepts app [] = false
accepts app (t ∷ ts) = t == 42

abbrev pub fresh : ServerHandler
fresh = new_handler (7 ∷ []) []

-- The response to `getcreds` with the token 42.
abbrev credentials : Bytes
credentials = be32 1 ++ 0x97 ∷ counted (42 ∷ [])

abbrev login : List Event
login =
    filter_protocol_connection 5
    ∷ established 5
    ∷ server_writeable
    ∷ receive 5 credentials true
    ∷ []

abbrev asked : Writer
asked = message linux 0 1 (counted (b'/' ∷ []))

abbrev busy : List Event
busy = call_perform asked 8 ∷ call_poll ∷ closed 5 ∷ []

run-settled_example :
    settled 8 (run linux no_header accepts busy fresh).0
      + waiting 8 (run linux no_header accepts busy fresh).1.pending_responses
    ≡ 1
unfolding calls waiting Server.new_handler Tickets.called
run-settled_example = Tickets.run-settled 8 linux no_header accepts busy fresh

logged_in : (run linux no_header accepts login fresh).1.is_authenticated ≡ true
unfolding run Server.Events.step Server.on_established Server.ask_credentials Server.enqueue
    Server.on_writable Server.send_front Server.on_receive Server.on_message
    Server.finish_authentication Server.Authentication.authenticate_via_header
    Server.Authentication.get_auth_token Server.new_handler Reader.new_reader Reader.read_u32
    Reader.read_u8 Reader.read_str Reader.read_bytes Bytes.be32 Bytes.counted Types.response_code
    Bits.join4
logged_in = refl

run-authenticated_example :
    (fresh.is_authenticated ≡ true)
    ⊎ ((is_empty fresh.authenticator ≡ true)
        ⊎ HasAccepted (accepts fresh.authenticator) (tokens no_header linux accepts login fresh))
run-authenticated_example = Safety.run-authenticated linux no_header accepts login fresh logged_in

perform-answered_example :
    run linux no_header accepts
      (call_perform asked 8
        ∷ server_writeable
        ∷ receive 5 (be32 1) false
        ∷ receive 5 (0x81 ∷ be32 0) true
        ∷ [])
      (record fresh {
        is_authenticated = true;
        shutdown_requested = false;
        requests = [];
        current_message = [];
      })
    ≡ (
      lws_write none (get_data linux (set_id linux 1 asked))
          ∷ set_value 8 (at (head 1 0x81) (be32 0))
          ∷ [],
      record fresh {
        id = 1;
        is_authenticated = true;
        shutdown_requested = false;
        requests = [];
        current_message = [];
      },
    )
unfolding Server.new_handler Server.next_id Delivery.arrivals Delivery.joined Server.find
    Types.response_code Bits.join4
perform-answered_example =
    Delivery.perform-answered linux no_header accepts 5 8 0x81 asked (be32 1 ∷ []) (0x81 ∷ be32 0)
      (be32 0) fresh (omega arith) (omega arith) refl refl

next_id-bounds_example :
    (0 < next_id (2 ^ 32 + 4294967295)) × (next_id (2 ^ 32 + 4294967295) < 2 ^ 32)
next_id-bounds_example = Delivery.next_id-bounds (2 ^ 32 + 4294967295)

-- A request to read the link "/".
on_message-IsAnswer_example :
    IsAnswer linux 9
      (response_code (get_response_type (get_request_type 3)))
      (on_message linux sample (new_reader (be32 9 ++ 3 ∷ counted (b'/' ∷ []))) [])
on_message-IsAnswer_example =
    Answers.on_message-IsAnswer linux sample 9 3 (counted (b'/' ∷ [])) [] (omega arith)
      (omega arith)
