-- ===== src/Tests/Whole.antt =====
-- Calls through the service and the provider, at concrete inputs.
use webfuse.Base.{◌≡◌, refl, List, [], ◌∷◌, ◌++◌, map, true, false, some}
use webfuse.Message.Bytes.{Bytes, be32, counted}
use webfuse.Message.Types.{RequestType}
use webfuse.Message.Reader.{new_reader}
use webfuse.Message.Writer.{Writer}
use webfuse.Message.Writer.Shape.{message}
use webfuse.Provider.{on_message, dispatch}
use webfuse.Provider.Handlers.{fs_rmdir}
use webfuse.Base.Bits.{join4}
use webfuse.Base.Int.{to_u32}
use webfuse.Message.Types
use webfuse.Message.Reader
use webfuse.Message.Reader.{Reader}
use webfuse.Message.Writer
use webfuse.Rpc.Exchange.{exchange}
use webfuse.Server.Delivery.{joined, arrivals}
use webfuse.Client
use webfuse.Client.{
  UserData, Reason, client_receive, client_writeable, client_established, run_client, new_user_data,
}
use webfuse.Client.Order
use webfuse.Client.Order.{sent, all_made}
use webfuse.Server.{next_id, find, new_handler, lws_write, set_value}
use webfuse.Server.Events.{run, call_perform, server_writeable}
use webfuse.Server.Waiting.{result_of}
use webfuse.System
use webfuse.System.{request_bytes, idle, idle_client, client_arrivals}
use webfuse.Tests.Samples.{linux, sample}
use webfuse.Tests.Service.{no_header, accepts, fresh}

abbrev body : Bytes
body = counted (b'/' ∷ b'a' ∷ [])

abbrev response : Writer
response = message linux 1 0x94 (255 ∷ 255 ∷ 255 ∷ 254 ∷ [])

answered :
    on_message linux sample (new_reader (request_bytes linux 1 RequestType.rmdir body)) []
    ≡ (some response, [])
unfolding on_message Reader.read_u32 new_reader Writer.get_data Writer.set_id message be32 counted
    Reader.read_u8 dispatch Types.get_request_type fs_rmdir Reader.read_str Reader.read_bytes join4
    Writer.write_i32 Writer.write_u8 Writer.write_u32 Writer.new_response Writer.new_message
    Types.response_code Types.get_response_type Types.request_code to_u32
answered = refl

abbrev response_last : Bytes
response_last = 1 ∷ 0x94 ∷ 255 ∷ 255 ∷ 255 ∷ 254 ∷ []

abbrev response_fragments : List Bytes
response_fragments = (0 ∷ []) ∷ (0 ∷ 0 ∷ []) ∷ []

response_whole : joined response_fragments response_last ≡ Writer.get_data linux response
unfolding joined Writer.get_data message be32
response_whole = refl

perform-exchange_example :
    exchange linux linux sample 1 (message linux 0 (Types.request_code RequestType.rmdir) body) []
    ≡ (
      result_of 8
          (run linux no_header accepts
            (call_perform (message linux 0 (Types.request_code RequestType.rmdir) body) 8
              ∷ server_writeable
              ∷ arrivals 5 response_fragments response_last)
            (idle fresh)).0,
      [],
    )
unfolding next_id find new_handler
perform-exchange_example =
    System.perform-exchange linux linux sample no_header accepts fresh RequestType.rmdir body
      response [] [] 5 8 response_fragments response_last (λ e. cc e) refl answered response_whole

abbrev request_fragments : List Bytes
request_fragments = (0 ∷ 0 ∷ []) ∷ []

abbrev request_last : Bytes
request_last = 0 ∷ 1 ∷ 0x14 ∷ body

request_whole : joined request_fragments request_last ≡ request_bytes linux 1 RequestType.rmdir body
unfolding joined Writer.get_data Writer.set_id message be32 Types.request_code counted
request_whole = refl

-- A directory is removed, without success, by one call.
call-completed_example :
    (run_client linux
        (on_message linux sample)
        3
        (client_arrivals request_fragments request_last ++ client_writeable ∷ [])
        (idle_client new_user_data)
        []
      ≡ (
        (
          Client.callback_on_writable 3 ∷ Client.lws_write 3 (Writer.get_data linux response) ∷ [],
          idle_client new_user_data,
        ),
        [],
      ))
    × ((reader : Reader) × (exchange linux linux sample 1
            (message linux 0 (Types.request_code RequestType.rmdir) body)
            []
          ≡ (some reader, []))
        × (run linux no_header accepts
              (call_perform (message linux 0 (Types.request_code RequestType.rmdir) body) 8
                ∷ server_writeable
                ∷ arrivals 5 response_fragments response_last)
              (idle fresh)
            ≡ (
              lws_write fresh.connection (request_bytes linux 1 RequestType.rmdir body)
                  ∷ set_value 8 reader
                  ∷ [],
              record (idle fresh) { id = 1 },
            )))
unfolding next_id find new_handler
call-completed_example =
    System.call-completed linux linux sample no_header accepts fresh RequestType.rmdir body response
      [] [] 5 3 8 request_fragments response_fragments request_last response_last new_user_data
      (λ e. cc e) refl answered request_whole response_whole

abbrev reasons : List Reason
reasons =
    client_established
    ∷ client_receive (0 ∷ 0 ∷ []) false
    ∷ client_receive request_last true
    ∷ client_writeable
    ∷ []

run_client-sent_example :
    sent (run_client linux (on_message linux sample) 3 reasons new_user_data []).0.0
      ++ map
          (Writer.get_data linux)
          (run_client linux (on_message linux sample) 3 reasons new_user_data []).0.1.requests
    ≡ map
        (Writer.get_data linux)
        (all_made linux (on_message linux sample) 3 reasons new_user_data [])
unfolding new_user_data
run_client-sent_example =
    Order.run_client-sent linux (on_message linux sample) 3 reasons new_user_data [] (record {})
