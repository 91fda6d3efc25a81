-- ===== src/Client.antt =====
-- `webfuse_client_callback` of src/webfuse/ws/client.cpp: the provider's side of the connection. The
-- handler of the client makes a response of a request, or throws, which is none; it keeps a state `S`
-- of its own. A `lws *` is a number. What the callback asks of others is a list of effects.
pub mod Order
pub mod Connect
pub mod Setup
use webfuse.Base.{ℕ, List, [], ◌∷◌, ◌++◌, Bool, true, false, Option, none, some, if◌then◌else◌}
use webfuse.Flags.Platform.{Platform}
use webfuse.Message.Bytes.{Bytes}
use webfuse.Message.Writer
use webfuse.Message.Writer.{Writer}
use webfuse.Message.Reader
use webfuse.Message.Reader.{Reader}

-- `ws_client_handler`
abbrev pub ClientHandler : Type 0 → Type 0
ClientHandler S = Reader → S → Option Writer × S

-- `user_data`, less the handler and the listener, which are never changed by the callback.
pub record UserData : Type 0 where
  pub connection : Option ℕ
  pub current_message : Bytes
  pub requests : List Writer

pub data Effect : Type 0 where
  connection_listener : Bool → Effect
  callback_on_writable : ℕ → Effect
  lws_write : ℕ → Bytes → Effect

-- The reasons that the callback knows; `server_writeable` falls through to `client_writeable`.
pub data Reason : Type 0 where
  client_established client_connection_error client_closed : Reason
  client_receive : Bytes → Bool → Reason
  client_writeable : Reason

-- `user_data` as `ws_client::detail` sets it up.
unfoldable pub new_user_data : UserData
new_user_data = record { connection = none; current_message = []; requests = [] }

-- What the two ways to lose the connection do.
unfoldable pub disconnect : UserData → List Effect × UserData
disconnect c = (
  connection_listener false ∷ [],
  record c { connection = none; requests = []; current_message = [] },
)

unfoldable pub enqueue : ℕ → Option Writer → UserData → List Effect × UserData
enqueue wsi none c = ([], c)
enqueue wsi (some writer) c =
    (callback_on_writable wsi ∷ [], record c { requests = c.requests ++ writer ∷ [] })

-- The second test of the branch is made after the pop.
unfoldable pub more_to_write : ℕ → List Writer → List Effect
more_to_write wsi [] = []
more_to_write wsi (writer ∷ rest) = callback_on_writable wsi ∷ []

unfoldable pub write_front : Platform → ℕ → List Writer → UserData → List Effect × UserData
write_front p wsi [] c = ([], c)
write_front p wsi (writer ∷ rest) c = (
  lws_write wsi (Writer.get_data p writer) ∷ more_to_write wsi rest,
  record c { requests = rest },
)

module _ (p : Platform) {S : Type 0} (handler : ClientHandler S) where
  -- The reader takes the text out of `current_message`, also if the handler throws.
  unfoldable pub answer : ℕ → Bytes → UserData → S → (List Effect × UserData) × S
  answer wsi message c s =
      let response = handler (Reader.new_reader message) s in
      (enqueue wsi response.0 (record c { current_message = [] }), response.1)

  unfoldable pub receive : ℕ → Bytes → Bool → UserData → S → (List Effect × UserData) × S
  receive wsi fragment is_final c s =
      let message = c.current_message ++ fragment in
      if is_final then answer wsi message c s else (([], record c { current_message = message }), s)

  unfoldable pub client_callback : ℕ → Reason → UserData → S → (List Effect × UserData) × S
  client_callback wsi client_established c s = ((connection_listener true ∷ [], c), s)
  client_callback wsi client_connection_error c s = (disconnect c, s)
  client_callback wsi client_closed c s = (disconnect c, s)
  client_callback wsi (client_receive fragment is_final) c s = receive wsi fragment is_final c s
  client_callback wsi client_writeable c s = (write_front p wsi c.requests c, s)

  -- A run of callbacks on one connection: all effects, in their order, and the states at the end.
  unfoldable pub run_client : ℕ → List Reason → UserData → S → (List Effect × UserData) × S
  run_client wsi [] c s = (([], c), s)
  run_client wsi (reason ∷ reasons) c s =
      let after = client_callback wsi reason c s in
      let rest = run_client wsi reasons after.0.1 after.1 in
      ((after.0.0 ++ rest.0.0, rest.0.1), rest.1)
