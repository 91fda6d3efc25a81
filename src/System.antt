-- ===== src/System.antt =====
-- The whole way of a call: `server_handler` sends the request, the client of the provider answers it,
-- and `server_handler` hands the response to the call. Messages may arrive in any fragments.
pub mod World
pub mod Flow
pub mod Live
pub mod Order
pub mod Linear
pub mod Writable
pub mod Asked
pub mod Weight
pub mod Quiet
use webfuse.Base.{
  ℕ, ◌^◌, ◌<◌, ◌≡◌, ◌≢◌, refl, ==_self, ap, ◌∙◌, List, [], ◌∷◌, ◌++◌, append_assoc, Bool, true,
  false, Option, none, some, arith,
}
use webfuse.Flags.Platform.{Platform}
use webfuse.Message.Bytes.{Bytes, be32}
use webfuse.Message.Types.{
  RequestType, ResponseType, request_code, response_code, get_response_type,
  get_request_type-request_code,
}
use webfuse.Message.Writer.{Writer, set_id, get_data}
use webfuse.Message.Writer.Shape.{message, set_id-message, get_data-message}
use webfuse.Message.Reader.{Reader, new_reader}
use webfuse.Message.Reader.At.{at}
use webfuse.Fs.{FilesystemI}
use webfuse.Provider.{on_message}
use webfuse.Provider.Answers.{IsAnswer, HasHead, on_message-IsAnswer}
use webfuse.Rpc.Exchange.{exchange, exchange-message, head}
use webfuse.Client
use webfuse.Client.{
  ClientHandler, UserData, new_user_data, Reason, client_receive, client_writeable, run_client,
}
use webfuse.Server.{ServerHandler, find, next_id, lws_write, set_value}
use webfuse.Server.Authentication.{Header}
use webfuse.Server.Waiting.{result_of, promised}
use webfuse.Server.Events.{run, call_perform, server_writeable}
use webfuse.Server.Delivery.{joined, arrivals, next_id-bounds, perform-answered}

unfoldable pub client_arrivals : List Bytes → Bytes → List Reason
client_arrivals [] last = client_receive last true ∷ []
client_arrivals (fragment ∷ fragments) last =
    client_receive fragment false ∷ client_arrivals fragments last

module _ (q : Platform) {S : Type 0} (handler : ClientHandler S) where
  -- A request that arrives in fragments is answered as a whole, and the response is written.
  pub client-answers :
      (wsi : ℕ) (fragments : List Bytes) (last : Bytes) (response : Writer) (c : UserData)
      (s s' : S)
      → handler (new_reader (c.current_message ++ joined fragments last)) s ≡ (some response, s')
      → run_client q handler wsi
          (client_arrivals fragments last ++ client_writeable ∷ [])
          (record c { requests = [] })
          s
        ≡ (
          (
            Client.callback_on_writable wsi ∷ Client.lws_write wsi (get_data q response) ∷ [],
            record c { requests = []; current_message = [] },
          ),
          s',
        )
  unfolding run_client client_arrivals joined Client.client_callback Client.receive Client.answer
      Client.enqueue Client.write_front Client.more_to_write
  client-answers wsi [] last response c s s' e = rw (e, Client.enqueue) refl
  client-answers wsi (fragment ∷ fragments) last response c s s' e =
      client-answers wsi fragments last response
        (record c { current_message = c.current_message ++ fragment }) s s'
        (rw (append_assoc c.current_message fragment (joined fragments last)) e)

pub response_code_byte : (t : RequestType) → response_code (get_response_type t) < 2 ^ 8
unfolding response_code get_response_type
response_code_byte RequestType.unknown = omega arith
response_code_byte _ = omega arith

pub request_code_byte : (t : RequestType) → request_code t < 2 ^ 8
unfolding request_code
request_code_byte RequestType.unknown = omega arith
request_code_byte _ = omega arith

pub not_credentials :
    (t : RequestType)
    → t ≢ RequestType.getcreds
    → response_code (get_response_type t) ≢ response_code ResponseType.getcreds
unfolding response_code get_response_type
not_credentials RequestType.getcreds h = absurd (h refl)
not_credentials RequestType.unknown h = λ e. omega arith
not_credentials _ h = λ e. omega arith

-- The message of a request.
abbrev pub request_bytes : Platform → ℕ → RequestType → Bytes → Bytes
request_bytes p id t body = get_data p (set_id p id (message p 0 (request_code t) body))

module _ (p q : Platform) {S : Type 0} (fs : FilesystemI S) (id : ℕ) (small : id < 2 ^ 32) where
  pub request_bytes-eq :
      (t : RequestType) (body : Bytes)
      → request_bytes p id t body ≡ be32 id ++ request_code t ∷ body
  request_bytes-eq t body = rw (set_id-message, get_data-message) refl

  pub response_head :
      (t : RequestType) (body : Bytes) (response : Writer) (s s' : S)
      → on_message q fs (new_reader (be32 id ++ request_code t ∷ body)) s ≡ (some response, s')
      → HasHead q id (response_code (get_response_type t)) response
  unfolding IsAnswer
  response_head t body response s s' e =
      rw (e, get_request_type-request_code t) at
        (on_message-IsAnswer q fs id (request_code t) body s small (request_code_byte t))

-- The states that a call starts from: an authenticated service with nothing else to write, and a client
-- that has nothing to write.
abbrev pub idle : ServerHandler → ServerHandler
idle s = record s {
  is_authenticated = true;
  shutdown_requested = false;
  requests = [];
  current_message = [];
}

abbrev pub idle_client : UserData → UserData
idle_client c = record c { requests = []; current_message = [] }

module _ (p q : Platform) {S : Type 0} (fs : FilesystemI S)
    (copy_header : ℕ → Header → Option Bytes) (authenticate : Bytes → Bytes → Bool)
    (s : ServerHandler) where
  -- The whole way of a call: if the provider answers the bytes of a request other than
  -- `getcreds`, its client, having nothing else to write, takes the request in any fragments and
  -- writes the response and nothing else; an authenticated handler that has nothing else to
  -- write, and whose next id is not pending, writes the request, and when the response has
  -- arrived in any fragments gives the call, and no other, the reader that `exchange` gives. Both
  -- then have nothing left to write.
  pub call-completed :
      (t : RequestType) (body : Bytes) (response : Writer) (state state' : S)
      (wsi_s wsi_c ticket : ℕ) (request_fragments response_fragments : List Bytes)
      (request_last response_last : Bytes) (c : UserData)
      → t ≢ RequestType.getcreds
      → find (next_id s.id) s.pending_responses ≡ none
      → on_message q fs (new_reader (request_bytes p (next_id s.id) t body)) state
        ≡ (some response, state')
      → joined request_fragments request_last ≡ request_bytes p (next_id s.id) t body
      → joined response_fragments response_last ≡ get_data q response
      → (run_client q
            (on_message q fs)
            wsi_c
            (client_arrivals request_fragments request_last ++ client_writeable ∷ [])
            (idle_client c)
            state
          ≡ (
            (
              Client.callback_on_writable wsi_c ∷ Client.lws_write wsi_c (get_data q response) ∷ [],
              idle_client c,
            ),
            state',
          ))
        × ((reader : Reader) × (exchange p q fs
                (next_id s.id)
                (message p 0 (request_code t) body)
                state
              ≡ (some reader, state'))
            × (run p copy_header authenticate
                  (call_perform (message p 0 (request_code t) body) ticket
                    ∷ server_writeable
                    ∷ arrivals wsi_s response_fragments response_last)
                  (idle s)
                ≡ (
                  lws_write s.connection (request_bytes p (next_id s.id) t body)
                      ∷ set_value ticket reader
                      ∷ [],
                  record (idle s) { id = next_id s.id },
                )))
  unfolding HasHead
  call-completed t body response state state' wsi_s wsi_c ticket request_fragments
        response_fragments request_last response_last c other fresh answered sent_whole got_whole =
      let id : ℕ = next_id s.id in
      let small : id < 2 ^ 32 = (next_id-bounds s.id).1 in
      let code : ℕ = response_code (get_response_type t) in
      let w : Writer = message p 0 (request_code t) body in
      let headed : HasHead q id code response =
        response_head p q fs id small t body response state state'
          (rw (request_bytes-eq p q fs id small t body) at answered) in
      let whole : joined response_fragments response_last ≡ be32 id ++ code ∷ headed.0 =
        got_whole ∙ ap (get_data q) headed.1 ∙ get_data-message q id code headed.0 in
      (
        client-answers q (on_message q fs) wsi_c request_fragments request_last response
            (record c { current_message = [] }) state state' (rw sent_whole answered),
        (
          at (head id code) headed.0,
          exchange-message p q fs id small w code headed.0 state state' (rw headed.1 at answered),
          perform-answered p copy_header authenticate wsi_s ticket code w response_fragments
              response_last headed.0 s (response_code_byte t) (not_credentials t other) fresh whole,
        ),
      )

  -- What the operations of the remote file system take as their exchange is what the connection
  -- does: an authenticated handler that has nothing else to write sends a request, whose next id
  -- is not pending and which is not `getcreds`; when the response that the provider makes of its
  -- bytes has arrived in any fragments, the call of `ws_server::perform` gets the reader that
  -- `exchange` gives, and the provider is in the state that `exchange` gives.
  pub perform-exchange :
      (t : RequestType) (body : Bytes) (response : Writer) (state state' : S) (wsi ticket : ℕ)
      (fragments : List Bytes) (last : Bytes)
      → t ≢ RequestType.getcreds
      → find (next_id s.id) s.pending_responses ≡ none
      → on_message q fs (new_reader (request_bytes p (next_id s.id) t body)) state
        ≡ (some response, state')
      → joined fragments last ≡ get_data q response
      → exchange p q fs (next_id s.id) (message p 0 (request_code t) body) state ≡ (
        result_of ticket
            (run p copy_header authenticate
              (call_perform (message p 0 (request_code t) body) ticket
                ∷ server_writeable
                ∷ arrivals wsi fragments last)
              (idle s)).0,
        state',
      )
  unfolding joined result_of promised
  perform-exchange t body response state state' wsi ticket fragments last other fresh answered
        whole =
      let (_, (reader, given, ran)) =
        call-completed t body response state state' wsi wsi ticket [] fragments
          (request_bytes p (next_id s.id) t body) last new_user_data other fresh answered refl
          whole in
      rw (given, ran, result_of, promised, ==_self ticket) refl
