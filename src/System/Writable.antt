-- ===== src/System/Writable.antt =====
-- The world of many calls, with what both ends have asked libwebsockets for by `lws_callback_on_writable`:
-- it makes a connection writable only where this was asked for since it last was.
use webfuse.Base.{
  ℕ, zero, suc, ◌+◌, ◌^◌, ◌<◌, ◌≡◌, ◌≢◌, List, [], ◌∷◌, ◌||◌, Bool, true, false, Option, length,
}
use webfuse.Flags.Platform.{Platform}
use webfuse.Message.Bytes.{Bytes}
use webfuse.Message.Types.{RequestType}
use webfuse.Fs.{FilesystemI}
use webfuse.Provider.{on_message}
use webfuse.Client
use webfuse.Client.{client_writeable, client_callback, run_client}
use webfuse.Server
use webfuse.Server.{next_id, on_writable}
use webfuse.Server.Authentication.{Header}
use webfuse.Server.Events.{run}
use webfuse.Server.Delivery.{joined, arrivals}
use webfuse.Server.Loop.{asks}
use webfuse.System.{client_arrivals}
use webfuse.System.World
use webfuse.System.World.{Call, World, call_message}

-- Whether effects of the client ask for a writable connection.
unfoldable pub client_asks : List Client.Effect → Bool
client_asks [] = false
client_asks (Client.callback_on_writable wsi ∷ effects) = true
client_asks (Client.connection_listener connected ∷ effects) = client_asks effects
client_asks (Client.lws_write wsi bytes ∷ effects) = client_asks effects

-- A world, and whether each end waits to be made writable.
pub record Served (S : Type 0) : Type 0 where
  pub world : World S
  pub service_asked : Bool
  pub client_asked : Bool

module _ (p q : Platform) {S : Type 0} (fs : FilesystemI S)
    (copy_header : ℕ → Header → Option Bytes) (authenticate : Bytes → Bytes → Bool)
    (wsi_s wsi_c : ℕ) where
  unfoldable pub ask : RequestType → Bytes → Served S → Served S
  ask kind body v =
      let w = v.world in
      let call : Call = record {
        ticket = length w.performed + length w.waiting;
        id = next_id w.service.id;
        kind = kind;
        body = body;
      } in
      record v {
        world = World.ask p q fs copy_header authenticate wsi_s wsi_c kind body w;
        service_asked =
            v.service_asked
            || asks (Server.perform p (call_message p call) call.ticket w.service).0;
      }

  unfoldable pub poll : Served S → Served S
  poll v = record v {
    world = World.poll p q fs copy_header authenticate wsi_s wsi_c v.world;
    service_asked = v.service_asked || asks (Server.poll v.world.service).0;
  }

  -- The service is made writable, and may ask again.
  unfoldable pub transmit : Served S → Served S
  transmit v = record v {
    world = World.transmit p q fs copy_header authenticate wsi_s wsi_c v.world;
    service_asked = asks (on_writable p v.world.service).1.0;
  }

  unfoldable pub perform : List Bytes → Bytes → List Bytes → Served S → Served S
  perform fragments last up v =
      let w = v.world in
      record v {
        world = World.perform p q fs copy_header authenticate wsi_s wsi_c fragments last up w;
        client_asked =
            v.client_asked
            || client_asks
                (run_client q (on_message q fs) wsi_c (client_arrivals fragments last) w.client
                  w.provider).0.0;
      }

  -- The client is made writable, and may ask again.
  unfoldable pub reply : Served S → Served S
  reply v = record v {
    world = World.reply p q fs copy_header authenticate wsi_s wsi_c v.world;
    client_asked =
        client_asks
          (client_callback q (on_message q fs) wsi_c client_writeable v.world.client
            v.world.provider).0.0;
  }

  unfoldable pub receive : List Bytes → Bytes → List Bytes → Served S → Served S
  receive fragments last down v = record v {
    world = World.receive p q fs copy_header authenticate wsi_s wsi_c fragments last down v.world;
    service_asked =
        v.service_asked
        || asks (run p copy_header authenticate (arrivals wsi_s fragments last) v.world.service).0;
  }

  -- What happens to the calls that there are. `perform` of the service wakes its thread, which polls where
  -- requests wait that it has not asked to write.
  pub data Progress (v v' : Served S) : Type 0 where
    wakes : v.service_asked ≡ false → v.world.service.requests ≢ [] → v' ≡ poll v → Progress v v'
    writes_request :
        v.service_asked ≡ true → v.world.service.requests ≢ [] → v' ≡ transmit v → Progress v v'
    performs_request :
        (fragments : List Bytes) (last : Bytes) (up : List Bytes)
        → v.world.up ≡ joined fragments last ∷ up
        → v' ≡ perform fragments last up v
        → Progress v v'
    writes_response :
        v.client_asked ≡ true → v.world.client.requests ≢ [] → v' ≡ reply v → Progress v v'
    receives_response :
        (fragments : List Bytes) (last : Bytes) (down : List Bytes)
        → v.world.down ≡ joined fragments last ∷ down
        → v' ≡ receive fragments last down v
        → Progress v v'

  pub data Happens (v v' : Served S) : Type 0 where
    calls :
        (kind : RequestType) (body : Bytes)
        → kind ≢ RequestType.getcreds
        → v.world.service.id + 1 < 2 ^ 32
        → v' ≡ ask kind body v
        → Happens v v'
    polls : v' ≡ poll v → Happens v v'
    progresses : Progress v v' → Happens v v'

  -- A run from a world in which neither end has asked for anything.
  pub data Reached (start : World S) : Served S → Type 0 where
    here : Reached start (record { world = start; service_asked = false; client_asked = false })
    next : {v v' : Served S} → Reached start v → Happens v v' → Reached start v'

  -- `n` steps of progress from one world to another.
  pub data Moves (v : Served S) : ℕ → Served S → Type 0 where
    still : Moves v zero v
    more : {n : ℕ} {v' v'' : Served S} → Moves v n v' → Progress v' v'' → Moves v (suc n) v''
