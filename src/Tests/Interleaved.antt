-- ===== src/Tests/Interleaved.antt =====
-- Two calls on their way at once, at concrete inputs.
use webfuse.Base.{
  ℕ, ◌+◌, ◌^◌, ◌<◌, ◌≤◌, ◌≡◌, ◌≢◌, refl, ap, List, [], ◌∷◌, ◌++◌, map, true, false, some, arith,
  ◌⊎◌, length,
}
use webfuse.Message.Bytes.{Bytes, be32, counted}
use webfuse.Message.Types
use webfuse.Message.Types.{RequestType}
use webfuse.Message.Reader
use webfuse.Message.Reader.{Reader}
use webfuse.Base.Bits.{join4}
use webfuse.Base.Int.{to_u32}
use webfuse.Provider
use webfuse.Provider.Handlers
use webfuse.Message.Writer
use webfuse.Message.Writer.Shape.{message}
use webfuse.Flags.FileMode
use webfuse.Client
use webfuse.Client.Order
use webfuse.Server
use webfuse.Server.{next_id}
use webfuse.Server.Delivery
use webfuse.Server.Delivery.{joined}
use webfuse.Server.Events
use webfuse.System
use webfuse.System.World
use webfuse.System.World.{
  World, Start, Step, asks, moves, transmits, performs, replies, receives, Move, Reachable, here,
  next, after_calls, exchanged,
}
use webfuse.System.Linear
use webfuse.System.Linear.{IsNumbered}
use webfuse.System.Quiet
use webfuse.System.Quiet.{IsAnswered}
use webfuse.System.Weight.{budget, Further}
use webfuse.System.Writable
use webfuse.System.Writable.{Served, Reached, calls, wakes, still, more}
use webfuse.Server.Loop
use webfuse.Tests.Samples.{linux, sample, Notes}
use webfuse.Tests.Service.{no_header, accepts, fresh}

abbrev begin : World Notes
begin = record {
  service = record fresh { connection = some 5; is_authenticated = true };
  up = [];
  client = record { connection = some 9; current_message = []; requests = [] };
  provider = [];
  down = [];
  performed = [];
  waiting = [];
  got = [];
}

abbrev chmod_body : ℕ → Bytes
chmod_body mode = counted (b'/' ∷ b'a' ∷ []) ++ be32 mode

abbrev chmod : ℕ → World Notes → World Notes
chmod mode = World.ask linux linux sample no_header accepts 5 9 RequestType.chmod (chmod_body mode)

abbrev asked : World Notes
asked = chmod 2 (chmod 1 begin)

abbrev transmitted : World Notes
transmitted = World.transmit linux linux sample no_header accepts 5 9 asked

abbrev first_request : Bytes
first_request = 0 ∷ 0 ∷ 1 ∷ 7 ∷ chmod_body 1

-- The first call is performed, in two fragments, while the second waits in the queue of the service.
abbrev performed : World Notes
performed =
    World.perform linux linux sample no_header accepts 5 9 ((0 ∷ []) ∷ []) first_request []
      transmitted

abbrev replied : World Notes
replied = World.reply linux linux sample no_header accepts 5 9 performed

-- The first is answered.
abbrev received : World Notes
received =
    World.receive linux linux sample no_header accepts 5 9 [] (be32 1 ++ 0x87 ∷ be32 0) [] replied

-- The names of the service that a run unfolds are written out in each declaration.
asked_two : length asked.service.requests ≡ 2
unfolding World.ask Server.perform Server.emplace Server.find Server.enqueue Server.new_handler
    next_id
asked_two = refl

asked_room : (chmod 1 begin).service.id + 1 < 2 ^ 32
unfolding World.ask Server.perform Server.emplace Server.find Server.enqueue Server.new_handler
    next_id
asked_room = omega arith

asked_requests : asked.service.requests ≢ []
asked_requests e = omega (arith, asked_two, ap length e)

transmitted_up : transmitted.up ≡ joined ((0 ∷ []) ∷ []) first_request ∷ []
unfolding World.ask World.transmit Server.perform joined Delivery.sent Server.on_writable
    Server.emplace Server.find Server.enqueue Server.new_handler next_id Server.send_front
    Writer.get_data Writer.set_id message be32 Types.request_code
transmitted_up = refl

performed_one : length performed.client.requests ≡ 1
unfolding World.ask World.transmit World.perform Client.client_callback Client.receive Client.answer
    Client.enqueue Client.run_client System.client_arrivals Provider.on_message Reader.read_u32
    Reader.new_reader counted be32 Reader.read_u8 Provider.dispatch Types.get_request_type
    Provider.Handlers.fs_chmod Reader.read_str Reader.read_bytes join4 Reader.read_mode
performed_one = refl

performed_requests : performed.client.requests ≢ []
performed_requests e = omega (arith, performed_one, ap length e)

replied_down : replied.down ≡ joined [] (be32 1 ++ 0x87 ∷ be32 0) ∷ []
unfolding World.ask World.transmit World.perform World.reply joined Order.sent Client.write_front
    Client.client_callback Client.receive Client.answer Client.enqueue Client.run_client
    System.client_arrivals Provider.on_message Reader.read_u32 Reader.new_reader counted be32
    Reader.read_u8 Provider.dispatch Types.get_request_type Provider.Handlers.fs_chmod
    Reader.read_str Reader.read_bytes join4 Reader.read_mode Writer.get_data message
    Writer.write_i32 Writer.write_u8 Writer.write_u32 Writer.new_response Writer.new_message
    Types.response_code Types.get_response_type Types.request_code to_u32 Writer.set_id
    Client.more_to_write
replied_down = refl

-- The first call has its answer, the second is neither sent nor performed.
received_answered :
    (map (λ answer. answer.0) received.got ≡ 0 ∷ [])
    × (length received.waiting ≡ 1)
    × (received.provider ≡ 1 ∷ [])
unfolding World.ask World.transmit World.perform World.reply World.receive World.values Events.run
    Delivery.arrivals Events.step Server.on_receive Server.on_message Reader.read_u32
    Reader.new_reader Server.on_writable Server.perform Server.emplace Server.find Server.enqueue
    Server.new_handler next_id Server.send_front Server.resolve Server.erase Reader.read_u8 join4
    be32 Client.client_callback Client.receive Client.answer Client.enqueue Client.run_client
    System.client_arrivals Provider.on_message counted Provider.dispatch Types.get_request_type
    Provider.Handlers.fs_chmod Reader.read_str Reader.read_bytes Reader.read_mode
    Types.response_code FileMode.to_mode
received_answered = (refl, refl, refl)

two_calls : Reachable linux linux sample no_header accepts 5 9 begin asked
unfolding Server.new_handler
two_calls =
    next (next here (asks RequestType.chmod (chmod_body 1) (λ e. cc e) (omega arith) refl))
      (asks RequestType.chmod (chmod_body 2) (λ e. cc e) asked_room refl)

steps : Reachable linux linux sample no_header accepts 5 9 begin received
steps =
    next
      (next
        (next (next two_calls (moves (transmits asked_requests refl)))
          (moves (performs ((0 ∷ []) ∷ []) first_request [] transmitted_up refl)))
        (moves (replies performed_requests refl)))
      (moves (receives [] (be32 1 ++ 0x87 ∷ be32 0) [] replied_down refl))

begin-Start : Start linux linux sample no_header accepts 5 9 begin
unfolding Server.new_handler
begin-Start = record {
  authenticated = refl;
  running = refl;
  connected = refl;
  short_id = omega arith;
  no_message = refl;
  no_requests = refl;
  no_pending = refl;
  nothing_up = refl;
  nothing_down = refl;
  client_message = refl;
  client_requests = refl;
  none_performed = refl;
  none_waiting = refl;
  none_got = refl;
}

reachable-linearizable_example :
    (received.provider ≡ after_calls linux linux sample received.performed [])
    × ((later : List (ℕ × Reader)) × (exchanged linux linux sample received.performed []
          ≡ received.got ++ later))
    × IsNumbered 0 (received.performed ++ received.waiting)
reachable-linearizable_example =
    Linear.reachable-linearizable linux linux sample no_header accepts 5 9 begin received
      begin-Start steps

-- The same two calls, with the poll of the thread after them.
abbrev called : Served Notes
called = Writable.ask linux linux sample no_header accepts 5 9 RequestType.chmod (chmod_body 2) (
    Writable.ask linux linux sample no_header accepts 5 9 RequestType.chmod (chmod_body 1)
      (record { world = begin; service_asked = false; client_asked = false }))

abbrev woken : Served Notes
woken = Writable.poll linux linux sample no_header accepts 5 9 called

called_two : (length called.world.service.requests ≡ 2) × (called.service_asked ≡ false)
unfolding Writable.ask World.ask Server.perform Server.emplace Server.find Server.enqueue
    Server.new_handler next_id Loop.asks
called_two = (refl, refl)

called_requests : called.world.service.requests ≢ []
called_requests e = omega (arith, called_two.0, ap length e)

reached_two : Reached linux linux sample no_header accepts 5 9 begin called
unfolding Server.new_handler Writable.ask World.ask Server.perform Server.emplace Server.find
    Server.enqueue next_id
reached_two =
    Writable.next
      (Writable.next Writable.here
        (calls RequestType.chmod (chmod_body 1) (λ e. cc e) (omega arith) refl))
      (calls RequestType.chmod (chmod_body 2) (λ e. cc e) (omega arith) refl)

Moves-end_example :
    (1 ≤ budget called)
    × (IsAnswered linux linux sample no_header accepts 5 9 [] called.world woken.world
        ⊎ Further linux linux sample no_header accepts 5 9 woken)
Moves-end_example =
    Quiet.Moves-end linux linux sample no_header accepts 5 9 begin called 1 woken begin-Start
      reached_two (more still (wakes called_two.1 called_requests refl))
