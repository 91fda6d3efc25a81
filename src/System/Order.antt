-- ===== src/System/Order.antt =====
-- The order in which calls are performed and answered, as an invariant of the worlds.
pub mod Ask
pub mod Service
pub mod Performed
pub mod Client
use webfuse.Base.{
  ℕ, suc, ◌+◌, ◌%◌, ◌^◌, ◌<◌, ◌≤◌, ◌≡◌, ◌≢◌, refl, sym, subst, ap, ◌∙◌, List, [], ◌∷◌, ◌++◌, map,
  append_assoc, append-nil, Bool, true, false, Option, none, some, ◌==◌, ==_self, arith, length,
  take, drop, if◌then◌else◌,
}
use webfuse.Flags.Platform.{Platform}
use webfuse.Message.Bytes.{Bytes, be32}
use webfuse.Message.Types.{RequestType, response_code, get_response_type}
use webfuse.Message.Writer.{Writer, get_data, set_id}
use webfuse.Message.Reader.{Reader}
use webfuse.Message.Reader.At.{at}
use webfuse.Fs.{FilesystemI}
use webfuse.Rpc.Exchange.{head}
use webfuse.Client.{UserData}
use webfuse.Server
use webfuse.Server.{ServerHandler, next_id, find, send_front, on_writable}
use webfuse.Server.Authentication.{Header}
use webfuse.Server.Delivery.{sent}
use webfuse.System.World.{
  Call, call_message, call_bytes, World, ask, poll, transmit, perform, reply, receive, after_calls,
  exchanged,
}
use webfuse.System.Flow.{Bounded, Bounded-find, Bounded-more}
use webfuse.System.Live.{IsLive, IsLive-add}

-- A response on its way: its call, and its body.
pub record Flight : Type 0 where
  pub call : Call
  pub body : Bytes

abbrev pub code_of : Call → ℕ
code_of call = response_code (get_response_type call.kind)

abbrev pub flight_bytes : Flight → Bytes
flight_bytes flight = be32 flight.call.id ++ code_of flight.call ∷ flight.body

abbrev pub flight_answer : Flight → ℕ × Reader
flight_answer flight =
    (flight.call.ticket, at (head flight.call.id (code_of flight.call)) flight.body)

abbrev pub flight_call : Flight → Call
flight_call flight = flight.call

module _ (p q : Platform) {S : Type 0} (fs : FilesystemI S) (wsi_s : ℕ) (state : S) where
  -- The order of what is on its way, if the provider started in `state`.
  pub record IsOrdered (w : World S) : Type 0 where
    pub authenticated : w.service.is_authenticated ≡ true
    pub running : w.service.shutdown_requested ≡ false
    pub connected : w.service.connection ≡ some wsi_s
    pub short_id : w.service.id < 2 ^ 32
    pub no_message : w.service.current_message ≡ []
    pub client_message : w.client.current_message ≡ []
    pub flying : List Flight
    pub requests : w.up ++ map (get_data p) w.service.requests ≡ map (call_bytes p) w.waiting
    pub responses : w.down ++ map (get_data q) w.client.requests ≡ map flight_bytes flying
    pub live :
        IsLive w.service.id w.service.pending_responses 0 (map flight_call flying ++ w.waiting)
    pub bounded : Bounded w.service.id w.service.pending_responses
    pub provider : w.provider ≡ after_calls p q fs w.performed state
    pub answers : exchanged p q fs w.performed state ≡ w.got ++ map flight_answer flying
