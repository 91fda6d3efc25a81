-- ===== src/Server.antt =====
-- `server_handler`: src/webfuse/ws/server_handler.hpp and server_handler.cpp, the service's side of
-- the connection. A `lws *` is a number, a `std::promise` the number of the call that waits for it.
-- What the handler asks of others is a list of effects. The operations are taken to run one after the
-- other: the queue and the pending responses are only used under the mutex.
pub mod Authentication
pub mod Events
pub mod Loop
pub mod Reconnect
pub mod Closed
pub mod Tickets
pub mod Safety
pub mod Delivery
pub mod Waiting
pub mod Setup
use webfuse.Base.{
  ℕ, ◌+◌, ◌%◌, ◌^◌, List, [], ◌∷◌, ◌++◌, map, Bool, true, false, not, ◌&&◌, Option, none, some,
  ◌==◌, if◌then◌else◌,
}
use webfuse.Base.Int.{ℤ, pos, neg}
use webfuse.Flags.Platform.{Platform}
use webfuse.Message.Bytes.{Bytes}
use webfuse.Message.Types.{RequestType, ResponseType, response_code}
use webfuse.Message.Writer
use webfuse.Message.Writer.{Writer}
use webfuse.Message.Reader
use webfuse.Message.Reader.{Reader, ReadM, ◌>>=◌, return}

pub record ServerHandler : Type 0 where
  pub connection : Option ℕ
  pub id : ℕ
  pub shutdown_requested : Bool
  pub is_authenticated : Bool
  pub authenticator : Bytes
  pub auth_header : Bytes
  pub current_message : Bytes
  pub requests : List Writer
  -- pairs of an id and the promise that waits for the response with this id
  pub pending_responses : List (ℕ × ℕ)

pub data Effect : Type 0 where
  callback_on_writable : Option ℕ → Effect
  lws_write : Option ℕ → Bytes → Effect
  set_value : ℕ → Reader → Effect
  -- also a promise that is destroyed without a value
  set_exception : ℕ → Effect

unfoldable pub new_handler : Bytes → Bytes → ServerHandler
new_handler auth_app auth_hdr = record {
  connection = none;
  id = 0;
  shutdown_requested = false;
  is_authenticated = false;
  authenticator = auth_app;
  auth_header = auth_hdr;
  current_message = [];
  requests = [];
  pending_responses = [];
}

abbrev pub is_empty : {A : Type 0} → List A → Bool
is_empty [] = true
is_empty (x ∷ xs) = false

unfoldable pub next_id : ℕ → ℕ
next_id id = let next = (id + 1) % 2 ^ 32 in if next == 0 then 1 else next

-- `pending_responses.find(id)` and `pending_responses.erase(it)`
unfoldable pub find : ℕ → List (ℕ × ℕ) → Option ℕ
find id [] = none
find id ((key, ticket) ∷ pending) =
    let rest = find id pending in if key == id then some ticket else rest

unfoldable pub erase : ℕ → List (ℕ × ℕ) → List (ℕ × ℕ)
erase id [] = []
erase id ((key, ticket) ∷ pending) =
    let rest = erase id pending in if key == id then pending else (key, ticket) ∷ rest

abbrev pub is_connection : ℕ → Option ℕ → Bool
is_connection wsi none = false
is_connection wsi (some connection) = connection == wsi

module _ (p : Platform) where
  -- `writer.set_id(next_id()); requests.emplace(std::move(writer));`
  unfoldable pub enqueue : Writer → ServerHandler → ServerHandler
  enqueue writer s =
      let id = next_id s.id in
      record s { id = id; requests = s.requests ++ Writer.set_id p id writer ∷ [] }

  unfoldable pub ask_credentials : ℕ → ServerHandler → ℤ × (List Effect × ServerHandler)
  ask_credentials wsi s =
      if not s.is_authenticated && not (is_empty s.authenticator)
      then (
        pos 0,
        (
          callback_on_writable (some wsi) ∷ [],
          enqueue (Writer.new_request p RequestType.getcreds) s,
        ),
      )
      else (pos 0, ([], s))

  unfoldable pub on_established : ℕ → ServerHandler → ℤ × (List Effect × ServerHandler)
  on_established wsi s = elim (s.connection) [
    | none ↦ ask_credentials wsi (record s { connection = some wsi; id = 0 })
    | some connection ↦ (neg 1, ([], s))
  ]

  -- `pending_responses.emplace(id, std::move(p))`: an id that is in use keeps its promise.
  unfoldable pub emplace : ℕ → ServerHandler → List Effect × ServerHandler
  emplace ticket s = elim (find s.id s.pending_responses) [
    | none ↦ ([], record s { pending_responses = (s.id, ticket) ∷ s.pending_responses })
    | some other ↦ (set_exception ticket ∷ [], s)
  ]

  unfoldable pub perform : Writer → ℕ → ServerHandler → List Effect × ServerHandler
  perform writer ticket s =
      if s.is_authenticated
      then emplace ticket (enqueue writer s)
      else (set_exception ticket ∷ [], s)

  unfoldable pub send_front : List Writer → ServerHandler → List Effect × ServerHandler
  send_front [] s = ([], s)
  send_front (writer ∷ rest) s = (
    lws_write s.connection (Writer.get_data p writer)
        ∷ (if is_empty rest then [] else callback_on_writable s.connection ∷ []),
    record s { requests = rest },
  )

  unfoldable pub on_writable : ServerHandler → ℤ × (List Effect × ServerHandler)
  on_writable s =
      if s.shutdown_requested then (neg 1, ([], s)) else (pos 0, send_front s.requests s)

unfoldable pub on_closed : ℕ → ServerHandler → ServerHandler
on_closed wsi s =
    if is_connection wsi s.connection
    then record s { connection = none; is_authenticated = false; shutdown_requested = false }
    else s

-- The promise of a pending response is destroyed with it.
unfoldable pub abandon : List (ℕ × ℕ) → List Effect
abandon [] = []
abandon ((key, ticket) ∷ pending) = set_exception ticket ∷ abandon pending

unfoldable pub poll : ServerHandler → List Effect × ServerHandler
poll s = if is_empty s.requests then ([], s) else elim (s.connection) [
  | some connection ↦ (callback_on_writable (some connection) ∷ [], s)
  | none ↦ (abandon s.pending_responses, record s { requests = []; pending_responses = [] })
]

-- The reader's head is the id and the type of the message.
abbrev pub read_head : ReadM (ℕ × ℕ)
read_head = do id ← Reader.read_u32; message_type ← Reader.read_u8; return (id, message_type)

unfoldable pub resolve : ℕ → Reader → ServerHandler → List Effect × ServerHandler
resolve id reader s = elim (find id s.pending_responses) [
  | some ticket ↦
      (set_value ticket reader ∷ [], record s { pending_responses = erase id s.pending_responses })
  | none ↦ ([], s)
]

-- The program `authenticator` decides on a token.
module _ (authenticate : Bytes → Bytes → Bool) where
  unfoldable pub finish_authentication : ℕ → Reader → ServerHandler → List Effect × ServerHandler
  finish_authentication wsi reader s = elim (Reader.read_str reader) [
    | none ↦ ([], s)
    | some (credentials, rest) ↦
        if authenticate s.authenticator credentials
        then ([], record s { is_authenticated = true })
        else (callback_on_writable (some wsi) ∷ [], record s { shutdown_requested = true })
  ]

  -- A message is complete: `catch(...)` drops one that is too short.
  unfoldable pub on_message : ℕ → Reader → ServerHandler → List Effect × ServerHandler
  on_message wsi reader s = elim (read_head reader) [
    | none ↦ ([], s)
    | some ((id, message_type), rest) ↦
        if message_type == response_code ResponseType.getcreds
        then finish_authentication wsi rest s
        else resolve id rest s
  ]

  -- The reader takes the text out of `current_message`.
  unfoldable pub on_receive : ℕ → Bytes → Bool → ServerHandler → List Effect × ServerHandler
  on_receive wsi fragment is_final s =
      let message = s.current_message ++ fragment in
      if is_final
      then on_message wsi (Reader.new_reader message) (record s { current_message = [] })
      else ([], record s { current_message = message })
