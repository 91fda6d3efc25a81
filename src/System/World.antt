-- ===== src/System/World.antt =====
-- A service and a provider with any number of calls on their way: `server_handler`, the client of the
-- provider, and the messages between them. The connection is established and stays.
use webfuse.Base.{
  ℕ, ◌+◌, ◌^◌, ◌<◌, ◌≡◌, ◌≢◌, List, [], ◌∷◌, ◌++◌, Bool, true, false, Option, none, some, length,
  take, drop,
}
use webfuse.Flags.Platform.{Platform}
use webfuse.Message.Bytes.{Bytes}
use webfuse.Message.Types.{RequestType, request_code}
use webfuse.Message.Writer.{Writer}
use webfuse.Message.Writer.Shape.{message}
use webfuse.Message.Reader.{Reader}
use webfuse.Fs.{FilesystemI}
use webfuse.Provider.{on_message}
use webfuse.Rpc.Exchange.{exchange}
use webfuse.Client.{UserData, client_writeable, client_callback, run_client}
use webfuse.Client.Order
use webfuse.Server
use webfuse.Server.{
  ServerHandler, Effect, callback_on_writable, lws_write, set_value, set_exception, next_id,
  on_writable,
}
use webfuse.Server.Authentication.{Header}
use webfuse.Server.Events.{run}
use webfuse.Server.Delivery.{sent, joined, arrivals}
use webfuse.System.{client_arrivals, request_bytes}

-- A call of `ws_server::perform`: its promise, the id that the handler gives it, and its request.
pub record Call : Type 0 where
  pub ticket : ℕ
  pub id : ℕ
  pub kind : RequestType
  pub body : Bytes

abbrev pub call_message : Platform → Call → Writer
call_message p call = message p 0 (request_code call.kind) call.body

abbrev pub call_bytes : Platform → Call → Bytes
call_bytes p call = request_bytes p call.id call.kind call.body

-- Beside both ends and the messages between them, a world has the calls that the provider has
-- performed, those that wait for it, and the readers that calls have got.
pub record World (S : Type 0) : Type 0 where
  pub service : ServerHandler
  pub up : List Bytes
  pub client : UserData
  pub provider : S
  pub down : List Bytes
  pub performed : List Call
  pub waiting : List Call
  pub got : List (ℕ × Reader)

-- The promises that effects give a value.
unfoldable pub values : List Effect → List (ℕ × Reader)
values [] = []
values (set_value ticket reader ∷ effects) = (ticket, reader) ∷ values effects
values (callback_on_writable connection ∷ effects) = values effects
values (lws_write connection bytes ∷ effects) = values effects
values (set_exception ticket ∷ effects) = values effects

module _ (p q : Platform) {S : Type 0} (fs : FilesystemI S)
    (copy_header : ℕ → Header → Option Bytes) (authenticate : Bytes → Bytes → Bool)
    (wsi_s wsi_c : ℕ) where
  -- A thread of the service calls `perform`, with a promise of its own.
  unfoldable pub ask : RequestType → Bytes → World S → World S
  ask kind body w =
      let call : Call = record {
        ticket = length w.performed + length w.waiting;
        id = next_id w.service.id;
        kind = kind;
        body = body;
      } in
      record w {
        service = (Server.perform p (call_message p call) call.ticket w.service).1;
        waiting = w.waiting ++ call ∷ [];
      }

  -- `poll` of the thread that serves the connection.
  unfoldable pub poll : World S → World S
  poll w = record w { service = (Server.poll w.service).1 }

  unfoldable pub transmit : World S → World S
  transmit w =
      let after = (on_writable p w.service).1 in
      record w { service = after.1; up = w.up ++ sent after.0 }

  -- The client gets a message in fragments, and the provider performs it.
  unfoldable pub perform : List Bytes → Bytes → List Bytes → World S → World S
  perform fragments last up w =
      let after =
        run_client q (on_message q fs) wsi_c (client_arrivals fragments last) w.client w.provider in
      record w {
        up = up;
        client = after.0.1;
        provider = after.1;
        performed = w.performed ++ take 1 w.waiting;
        waiting = drop 1 w.waiting;
      }

  unfoldable pub reply : World S → World S
  reply w =
      let after = client_callback q (on_message q fs) wsi_c client_writeable w.client w.provider in
      record w { client = after.0.1; provider = after.1; down = w.down ++ Order.sent after.0.0 }

  -- The service gets a message in fragments.
  unfoldable pub receive : List Bytes → Bytes → List Bytes → World S → World S
  receive fragments last down w =
      let after = run p copy_header authenticate (arrivals wsi_s fragments last) w.service in
      record w { service = after.1; down = down; got = w.got ++ values after.0 }

  -- What happens to the calls that there are. Messages arrive in the order in which they were sent,
  -- each in any fragments.
  pub data Move (w w' : World S) : Type 0 where
    transmits : w.service.requests ≢ [] → w' ≡ transmit w → Move w w'
    performs :
        (fragments : List Bytes) (last : Bytes) (up : List Bytes)
        → w.up ≡ joined fragments last ∷ up
        → w' ≡ perform fragments last up w
        → Move w w'
    replies : w.client.requests ≢ [] → w' ≡ reply w → Move w w'
    receives :
        (fragments : List Bytes) (last : Bytes) (down : List Bytes)
        → w.down ≡ joined fragments last ∷ down
        → w' ≡ receive fragments last down w
        → Move w w'

  -- New calls come as long as the ids do not start anew; a call of the handler is not for
  -- credentials, which the handler asks for itself.
  pub data Step (w w' : World S) : Type 0 where
    asks :
        (kind : RequestType) (body : Bytes)
        → kind ≢ RequestType.getcreds
        → w.service.id + 1 < 2 ^ 32
        → w' ≡ ask kind body w
        → Step w w'
    polls : w' ≡ poll w → Step w w'
    moves : Move w w' → Step w w'

  -- An established and authenticated connection with nothing on its way.
  pub record Start (w : World S) : Type 0 where
    pub authenticated : w.service.is_authenticated ≡ true
    pub running : w.service.shutdown_requested ≡ false
    pub connected : w.service.connection ≡ some wsi_s
    pub short_id : w.service.id < 2 ^ 32
    pub no_message : w.service.current_message ≡ []
    pub no_requests : w.service.requests ≡ []
    pub no_pending : w.service.pending_responses ≡ []
    pub nothing_up : w.up ≡ []
    pub nothing_down : w.down ≡ []
    pub client_message : w.client.current_message ≡ []
    pub client_requests : w.client.requests ≡ []
    pub none_performed : w.performed ≡ []
    pub none_waiting : w.waiting ≡ []
    pub none_got : w.got ≡ []

  pub data Reachable (start : World S) : World S → Type 0 where
    here : Reachable start start
    next : {w w' : World S} → Reachable start w → Step w w' → Reachable start w'

-- The specification: a provider that performs calls one by one, each by one exchange.
module _ (p q : Platform) {S : Type 0} (fs : FilesystemI S) where
  unfoldable pub after_calls : List Call → S → S
  after_calls [] s = s
  after_calls (call ∷ calls) s =
      after_calls calls (exchange p q fs call.id (call_message p call) s).1

  abbrev pub answer_list : ℕ → Option Reader → List (ℕ × Reader)
  answer_list ticket none = []
  answer_list ticket (some reader) = (ticket, reader) ∷ []

  -- The readers that the calls get, where a call that the provider throws for gets none.
  unfoldable pub exchanged : List Call → S → List (ℕ × Reader)
  exchanged [] s = []
  exchanged (call ∷ calls) s =
      let out = exchange p q fs call.id (call_message p call) s in
      answer_list call.ticket out.0 ++ exchanged calls out.1
